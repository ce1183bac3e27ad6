-- ===== src/Tiling/LoopNests/Computed.antt =====
-- What `computeLoopNests` records of every loop that it is given.
use acgatea.Common.{
  ℕ, zero, suc, ◌+◌, ◌≡◌, refl, ◌∙◌, subst, Bool, true, false, Option, none, some, List, [], ◌∷◌,
  ◌++◌, if◌then◌else◌, ==_refl, arith, inl, inr, Bool-cases, In, is_contained, length, get_elem?,
  take,
}
use acgatea.Common.Map.{Map, find, assign, find-assign, find-assign_self}
use acgatea.Tiling.LoopNests.{
  nest_at, LoopTilingMetadata, LoopTilingInfo, no_nests, max_loop_nest_depth, get_metadata_for_loop,
  get_nest_containing_loop, split, initial_metadata, assign_metadata, record_index, add_nest,
  add_nests, process_loop, process_loops, compute_loop_nests,
}
use acgatea.Tiling.LoopNests.Split.{flatten, split_correct}

record_index-find :
    (index : ℕ) (nest : List ℕ) (m : Map ℕ) (l : ℕ)
    → find l (record_index index nest m) ≡ (if is_contained l nest then some index else find l m)
unfolding record_index
record_index-find index [] m l = refl
record_index-find index (x ∷ xs) m l =
    ground (arith, record_index-find index xs (assign x index m) l, find-assign x l index m)

get_elem?-append :
    (xs ys : List (List ℕ)) (i : ℕ) (n : List ℕ)
    → get_elem? xs i ≡ some n
    → get_elem? (xs ++ ys) i ≡ some n
get_elem?-append [] ys i n h = cc
get_elem?-append (x ∷ xs) ys zero n h = h
get_elem?-append (x ∷ xs) ys (suc i) n h = get_elem?-append xs ys i n h

nest_at-append :
    (xs ys : List (List ℕ)) (o : Option ℕ) (n : List ℕ)
    → nest_at xs o ≡ some n
    → nest_at (xs ++ ys) o ≡ some n
nest_at-append xs ys none n h = h
nest_at-append xs ys (some i) n h = get_elem?-append xs ys i n h

get_elem?-last : (xs : List (List ℕ)) (n : List ℕ) → get_elem? (xs ++ n ∷ []) (length xs) ≡ some n
get_elem?-last [] n = refl
get_elem?-last (x ∷ xs) n = get_elem?-last xs n

module _ (has_parent : ℕ → Bool) where
  assign_metadata-other :
      (depth k : ℕ) (nest : List ℕ) (m : Map LoopTilingMetadata) (l : ℕ)
      → is_contained l nest ≡ false
      → find l (assign_metadata has_parent depth k nest m) ≡ find l m
  unfolding assign_metadata
  assign_metadata-other depth k [] m l h = refl
  assign_metadata-other depth k (x ∷ xs) m l h = ground (
    arith,
    assign_metadata-other depth (suc k) xs (assign x (initial_metadata has_parent depth k x) m) l,
    find-assign x l (initial_metadata has_parent depth k x) m,
  )

  assign_metadata-find :
      (depth k : ℕ) (nest : List ℕ) (m : Map LoopTilingMetadata) (l : ℕ)
      → is_contained l nest ≡ true
      → (j : ℕ) × (get_elem? nest j ≡ some l)
        × (find l (assign_metadata has_parent depth k nest m)
            ≡ some (initial_metadata has_parent depth (k + j) l))
  unfolding assign_metadata
  assign_metadata-find depth k [] m l h = cc
  assign_metadata-find depth k (x ∷ xs) m l h =
      let m' = assign x (initial_metadata has_parent depth k x) m in
      elim (Bool-cases (is_contained l xs)) [
        | inl later ↦
            let (j, at, e) = assign_metadata-find depth (suc k) xs m' l later in
            (
              suc j,
              at,
              subst
                  (λ i.
                    find l (assign_metadata has_parent depth (suc k) xs m')
                    ≡ some (initial_metadata has_parent depth i l))
                  (omega arith) e,
            )
        | inr here ↦
            let same : x ≡ l = ground (arith, h, here) in
            (
              0,
              rw same refl,
              assign_metadata-other depth (suc k) xs m' l here
                  ∙ rw same (
                      subst
                        (λ i.
                          find l (assign l (initial_metadata has_parent depth k l) m)
                          ≡ some (initial_metadata has_parent depth i l))
                        (omega arith)
                        (find-assign_self l (initial_metadata has_parent depth k l) m)),
            )
      ]

  -- A loop is in the nest that the index leads to, and its metadata is that of its place there.
  pub record IsRecorded (i : LoopTilingInfo) (l : ℕ) : Type 0 where
    pub nest : List ℕ
    pub place : ℕ
    pub at_index : get_nest_containing_loop i l ≡ some nest
    pub at_place : get_elem? nest place ≡ some l
    pub metadata :
        get_metadata_for_loop i l ≡ some (initial_metadata has_parent (length nest) place l)

  abbrev pub IsComputed : LoopTilingInfo → Type 0
  IsComputed i = (l : ℕ) → is_contained l i.visited ≡ true → IsRecorded i l

  is_contained-append :
      (l : ℕ) (xs ys : List ℕ)
      → is_contained l (xs ++ ys) ≡ (if is_contained l xs then true else is_contained l ys)
  is_contained-append l [] ys = refl
  is_contained-append l (x ∷ xs) ys = ground (arith, is_contained-append l xs ys)

  add_nest-IsComputed :
      (nest : List ℕ) (i : LoopTilingInfo) → IsComputed i → IsComputed (add_nest has_parent nest i)
  unfolding add_nest
  add_nest-IsComputed nest i k l at = elim (Bool-cases (is_contained l nest)) [
    | inl new ↦
        let (j, place, e) = assign_metadata-find (length nest) 0 nest i.loop_to_metadata l new in
        let index : find l (record_index (length i.loop_nests) nest i.loop_to_nest_index)
            ≡ some (length i.loop_nests) =
          ground
            (arith, record_index-find (length i.loop_nests) nest i.loop_to_nest_index l, new) in
        record {
          nest = nest;
          place = j;
          at_index = rw index (get_elem?-last i.loop_nests nest);
          at_place = place;
          metadata =
              subst
                (λ x.
                  find l (assign_metadata has_parent (length nest) 0 nest i.loop_to_metadata)
                  ≡ some (initial_metadata has_parent (length nest) x l))
                (omega arith) e;
        }
    | inr old ↦
        let r = k l (ground (arith, is_contained-append l nest i.visited, at, old)) in
        let index : find l (record_index (length i.loop_nests) nest i.loop_to_nest_index)
            ≡ find l i.loop_to_nest_index =
          ground
            (arith, record_index-find (length i.loop_nests) nest i.loop_to_nest_index l, old) in
        record {
          nest = r.nest;
          place = r.place;
          at_index = rw index (
              nest_at-append i.loop_nests (nest ∷ []) (find l i.loop_to_nest_index) r.nest
                r.at_index);
          at_place = r.at_place;
          metadata =
              assign_metadata-other (length nest) 0 nest i.loop_to_metadata l old ∙ r.metadata;
        }
  ]

  add_nests-IsComputed :
      (nests : List (List ℕ)) (i : LoopTilingInfo)
      → IsComputed i
      → IsComputed (add_nests has_parent nests i)
  unfolding add_nests
  add_nests-IsComputed [] i k = k
  add_nests-IsComputed (n ∷ ns) i k =
      add_nests-IsComputed ns (add_nest has_parent n i) (add_nest-IsComputed n i k)

  add_nests-visited :
      (nests : List (List ℕ)) (i : LoopTilingInfo) (l : ℕ)
      → is_contained l (add_nests has_parent nests i).visited
        ≡ (if is_contained l (flatten nests) then true else is_contained l i.visited)
  unfolding add_nests add_nest
  add_nests-visited [] i l = refl
  add_nests-visited (n ∷ ns) i l = ground (
    arith,
    add_nests-visited ns (add_nest has_parent n i) l,
    is_contained-append l n i.visited,
    is_contained-append l n (flatten ns),
  )

module _ (perfectly_nested : ℕ → List ℕ) (is_parallel has_parent : ℕ → Bool)
    (head : (l : ℕ) → (inner : List ℕ) × (perfectly_nested l ≡ l ∷ inner)) where
  process_loop-visited :
      (loop : ℕ) (i : LoopTilingInfo)
      → is_contained loop (process_loop perfectly_nested is_parallel has_parent loop i).visited
        ≡ true
  process_loop-visited loop i = elim (Bool-cases (is_contained loop i.visited)) [
    | inl old ↦ rw old old
    | inr new ↦
        let (inner, e) = head loop in
        let nested = take max_loop_nest_depth (perfectly_nested loop) in
        let first : is_contained loop nested ≡ true = rw e (ground (arith, ==_refl loop)) in
        rw new (
          ground (
            arith,
            add_nests-visited has_parent (split is_parallel nested) i loop,
            (split_correct is_parallel nested).0,
            first,
          ))
  ]

  process_loop-kept :
      (loop : ℕ) (i : LoopTilingInfo) (l : ℕ)
      → is_contained l i.visited ≡ true
      → is_contained l (process_loop perfectly_nested is_parallel has_parent loop i).visited ≡ true
  process_loop-kept loop i l h = elim (Bool-cases (is_contained loop i.visited)) [
    | inl old ↦ rw old h
    | inr new ↦ rw new (
        ground (
          arith,
          add_nests-visited has_parent
              (split is_parallel (take max_loop_nest_depth (perfectly_nested loop))) i l,
          h,
        ))
  ]

  process_loops-kept :
      (ls : List ℕ) (i : LoopTilingInfo) (l : ℕ)
      → is_contained l i.visited ≡ true
      → is_contained l (process_loops perfectly_nested is_parallel has_parent ls i).visited ≡ true
  unfolding process_loops
  process_loops-kept [] i l h = h
  process_loops-kept (x ∷ xs) i l h = process_loops-kept xs _ l (process_loop-kept x i l h)

  process_loops-visited :
      (ls : List ℕ) (i : LoopTilingInfo) (l : ℕ)
      → In l ls
      → is_contained l (process_loops perfectly_nested is_parallel has_parent ls i).visited ≡ true
  unfolding process_loops
  process_loops-visited [] i l m = absurd m
  process_loops-visited (x ∷ xs) i l (inl e) =
      process_loops-kept xs _ l (rw e (process_loop-visited x i))
  process_loops-visited (x ∷ xs) i l (inr m) = process_loops-visited xs _ l m

  process_loops-IsComputed :
      (ls : List ℕ) (i : LoopTilingInfo)
      → IsComputed has_parent i
      → IsComputed has_parent (process_loops perfectly_nested is_parallel has_parent ls i)
  unfolding process_loops
  process_loops-IsComputed [] i k = k
  process_loops-IsComputed (x ∷ xs) i k =
      process_loops-IsComputed xs _ (elim (Bool-cases (is_contained x i.visited)) [
        | inl old ↦ rw old k
        | inr new ↦ rw new (add_nests-IsComputed has_parent _ i k)
      ])

  -- If the loops perfectly nested in a loop are given with that loop first, then after the analysis
  -- every loop that the walk came to is found in a nest that contains it, and its metadata has the
  -- strategy of its place in that nest.
  pub compute_loop_nests-IsRecorded :
      (all_loops : List ℕ) (l : ℕ)
      → In l all_loops
      → IsRecorded has_parent
          (compute_loop_nests perfectly_nested is_parallel has_parent all_loops)
          l
  compute_loop_nests-IsRecorded all_loops l m =
      process_loops-IsComputed all_loops no_nests (λ x h. cc) l
        (process_loops-visited all_loops no_nests l m)
