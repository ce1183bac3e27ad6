-- ===== src/Stages/Sorting/Draining.antt =====
-- The loop over the queue, for any successors: its invariant, and that it ends.
use acgatea.Common.{
  ℕ, zero, suc, ◌+◌, ◌≤◌, ◌<◌, ◌≡◌, ◌↔◌, ◌==◌, if◌then◌else◌, List, [], ◌∷◌, ◌++◌, In, In-append,
  length, length-append, append_assoc, append-nil, inl, inr, arith, ℤ, sub_ℕ, decrement,
  decrement-sub_ℕ, is_zero-sub_ℕ, count, total, total-append, total-one, total-le, Distinct,
  Distinct-append_one, Bool, true, false, refl, sym, subst,
}
use acgatea.Common.Map.{Map, assign, find-assign}
use acgatea.Stages.Sorting.{degree_of, relax, drain, sorted}

-- The edges into `s` out of the stages `done`.
abbrev pub incoming : (ℕ → List ℕ) → List ℕ → ℕ → ℕ
incoming successors done s = total (λ c. count s (successors c)) done

pub degree_of-assign :
    (k : ℕ) (d : ℤ) (m : Map ℤ) (s : ℕ)
    → degree_of (assign k d m) s ≡ (if k == s then d else degree_of m s)
degree_of-assign k d m s = ground (arith, find-assign k s d m)

module _ (edges : ℕ → ℕ) (successors : ℕ → List ℕ) where
  -- Each stage stands behind all its incoming edges.
  abbrev pub IsReady : List ℕ → List ℕ → Type 0
  IsReady before [] = Unit
  IsReady before (s ∷ after) =
      (edges s ≤ incoming successors before s) × IsReady (before ++ s ∷ []) after

  IsReady-append_one :
      (before xs : List ℕ) (s : ℕ)
      → IsReady before xs
      → edges s ≤ incoming successors (before ++ xs) s
      → IsReady before (xs ++ s ∷ [])
  IsReady-append_one before [] s r h =
      (subst (λ l. edges s ≤ incoming successors l s) (append-nil before) h, tt)
  IsReady-append_one before (x ∷ xs) s r h = (
    r.0,
    IsReady-append_one (before ++ x ∷ []) xs s r.1
        (subst (λ l. edges s ≤ incoming successors l s) (sym (append_assoc before (x ∷ []) xs)) h),
  )

  pub record IsDrained (stages done : List ℕ) : Type 0 where
    pub complete : (s : ℕ) → In s done ↔ (In s stages × (edges s ≤ incoming successors done s))
    pub distinct : Distinct done
    pub ready : IsReady [] done

module _ (stages : List ℕ) (edges : ℕ → ℕ) where
  -- After the edges `used` into each stage: the degree is the number of the other edges, and the
  -- stages that were queued are those without other edges.
  pub record IsCounted (used : ℕ → ℕ) (in_degree : Map ℤ) (queued : List ℕ) : Type 0 where
    pub degree : (s : ℕ) → degree_of in_degree s ≡ sub_ℕ (edges s) (used s)
    pub pushed : (s : ℕ) → In s queued ↔ (In s stages × (edges s ≤ used s))
    pub once : Distinct queued

  module _ (known : (s : ℕ) → 0 < edges s → In s stages) where
    -- One edge more into `x`, which joins the queue if it was the last.
    enqueue-IsCounted :
        (done : List ℕ) (x : ℕ) (used : ℕ → ℕ) (in_degree : Map ℤ) (queue : List ℕ) (last : Bool)
        (d : ℤ)
        → last ≡ (edges x == suc (used x))
        → d ≡ sub_ℕ (edges x) (suc (used x))
        → IsCounted used in_degree (done ++ queue)
        → IsCounted
            (λ s. if x == s then suc (used s) else used s)
            (assign x d in_degree)
            (done ++ (if last then queue ++ x ∷ [] else queue))
    enqueue-IsCounted done x used in_degree queue true d l e v = record {
      degree = λ s. ground (arith, v.degree s, degree_of-assign x d in_degree s, e);
      pushed = λ s. ground (
        arith,
        append_assoc done queue (x ∷ []),
        In-append s (done ++ queue) (x ∷ []),
        v.pushed s,
        known x,
        l,
      );
      once =
          subst (Distinct) (append_assoc done queue (x ∷ []))
            (Distinct-append_one x (done ++ queue) v.once (λ m. ground (arith, v.pushed x, l, m)));
    }
    enqueue-IsCounted done x used in_degree queue false d l e v = record {
      degree = λ s. ground (arith, v.degree s, degree_of-assign x d in_degree s, e);
      pushed = λ s. ground (arith, v.pushed s, v.pushed x, known x, l);
      once = v.once;
    }

    relax-IsCounted :
        (done xs : List ℕ) (used used' : ℕ → ℕ) (in_degree : Map ℤ) (queue : List ℕ)
        → ((s : ℕ) → used' s ≡ used s + count s xs)
        → IsCounted used in_degree (done ++ queue)
        → IsCounted used' (relax xs (in_degree, queue)).0 (done ++ (relax xs (in_degree, queue)).1)
    unfolding relax
    relax-IsCounted done [] used used' in_degree queue e v = record {
      degree = λ s. ground (arith, v.degree s, e s);
      pushed = λ s. ground (arith, v.pushed s, e s);
      once = v.once;
    }
    relax-IsCounted done (x ∷ xs) used used' in_degree queue e v =
        let falls : decrement (degree_of in_degree x) ≡ sub_ℕ (edges x) (suc (used x)) =
          ground (arith, v.degree x, decrement-sub_ℕ (edges x) (used x)) in
        relax-IsCounted done xs (λ s. if x == s then suc (used s) else used s) used' _ _
          (λ s. ground (arith, e s))
          (enqueue-IsCounted done x used in_degree queue _ _
            (ground (arith, falls, is_zero-sub_ℕ (edges x) (suc (used x)))) falls v)

    module _ (successors : ℕ → List ℕ) where
      pub drain-IsDrained :
          (fuel : ℕ) (in_degree : Map ℤ) (queue done : List ℕ)
          → length stages < fuel + length done
          → IsCounted (incoming successors done) in_degree (done ++ queue)
          → IsReady edges successors [] done
          → (result : List ℕ) × (drain successors fuel (in_degree, queue) done ≡ sorted result)
            × IsDrained edges successors stages result
      unfolding drain
      drain-IsDrained zero in_degree queue done enough v r = absurd (
          omega (
            arith,
            total-one (done ++ queue),
            total-one stages,
            total-le (λ _. 1) (done ++ queue) stages v.once (λ a m. ((v.pushed a).0 m).0),
            length-append done queue,
          ))
      drain-IsDrained (suc fuel) in_degree [] done enough v r = (
        done,
        refl,
        record {
          complete = λ s. ground (arith, v.pushed s, append-nil done);
          distinct = subst (Distinct) (append-nil done) v.once;
          ready = r;
        },
      )
      drain-IsDrained (suc fuel) in_degree (c ∷ queue) done enough v r =
          drain-IsDrained fuel _ _ (done ++ c ∷ []) (omega (arith, length-append done (c ∷ [])))
            (relax-IsCounted (done ++ c ∷ []) (successors c) (incoming successors done) _ in_degree
              queue (λ s. omega (arith, total-append (λ p. count s (successors p)) done (c ∷ [])))
              (subst (IsCounted (incoming successors done) in_degree)
                (sym (append_assoc done (c ∷ []) queue)) v))
            (IsReady-append_one edges successors [] done c r
              (((v.pushed c).0 ((In-append c done (c ∷ queue)).1 (inr (inl refl)))).1))
