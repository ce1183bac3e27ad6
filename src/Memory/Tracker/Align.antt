-- ===== src/Memory/Tracker/Align.antt =====
-- `alignAddress`: the least multiple of the alignment from the address on.
use acgatea.Common.{ℕ, ◌+◌, ◌-◌, ◌*◌, ◌/◌, ◌%◌, ◌≤◌, ◌<◌, ◌≡◌, arith, ◌⊎◌, inl, inr, sym, ◌∙◌}
use native.Mathlib.Nat.{
  mod-lt, mod-one, mod-add-mod, add-mod_right, zero-mod, div-add-mod', mul-le-mul_right, add-mul,
}
use native.Mathlib.Decide.{ℕ_discrete, dec_lt}
use acgatea.Memory.Tracker.{size_mod, align_address}

module _ (address alignment : ℕ) (fits : address + alignment ≤ size_mod) where
  -- The result lies in the `alignment` bytes from the address on.
  pub align_address_bounds :
      (address ≤ align_address address alignment)
      × (align_address address alignment ≤ address + alignment)
  unfolding align_address
  align_address_bounds = ground arith

  -- Off a multiple, it is the end of the block of `alignment` bytes that holds the address.
  align_address_end :
      1 < alignment
      → ¬ (address % alignment ≡ 0)
      → align_address address alignment ≡ address + (alignment - address % alignment)
  unfolding align_address
  align_address_end many off = ground arith

  align_address_on :
      (alignment ≤ 1) ⊎ (address % alignment ≡ 0) → align_address address alignment ≡ address
  unfolding align_address
  align_address_on h = ground arith

  -- It is a multiple of the alignment.
  pub align_address_multiple : 0 < alignment → align_address address alignment % alignment ≡ 0
  align_address_multiple pos = elim (ℕ_discrete (address % alignment) 0) [
    | yes on ↦ rw (align_address_on (inr on)) on
    | no off ↦ elim (dec_lt 1 alignment) [
      | yes many ↦
          let rem = mod-lt address pos in
          let whole : address % alignment + (alignment - address % alignment) ≡ 0 + alignment =
            omega arith in
          rw (align_address_end many off) (
            sym (mod-add-mod address alignment (alignment - address % alignment))
            ∙ rw whole (add-mod_right 0 alignment ∙ zero-mod alignment))
      | no few ↦
          let one : alignment ≡ 1 = omega arith in
          rw (align_address_on (inl (omega arith))) (rw one (mod-one address))
    ]
  ]

  -- It is the least one.
  pub align_address_least :
      (k : ℕ)
      → 0 < alignment
      → address ≤ k * alignment
      → align_address address alignment ≤ k * alignment
  align_address_least k pos h = elim (ℕ_discrete (address % alignment) 0) [
    | yes on ↦ rw (align_address_on (inr on)) h
    | no off ↦ elim (dec_lt 1 alignment) [
      | no few ↦ rw (align_address_on (inl (omega arith))) h
      | yes many ↦
          let split = div-add-mod' address alignment in
          let rem = mod-lt address pos in
          rw (align_address_end many off) (elim (dec_lt (address / alignment) k) [
            | yes above ↦
                omega (
                  arith,
                  mul-le-mul_right alignment above,
                  add-mul 1 (address / alignment) alignment,
                )
            | no under ↦
                let le : k ≤ address / alignment = omega arith in
                absurd (omega (arith, mul-le-mul_right alignment le))
          ])
    ]
  ]

  -- If the alignment is not 0 and the address and the alignment together are at most 2^64, the result
  -- lies in the `alignment` bytes from the address on, it is a multiple of the alignment, and no
  -- multiple from the address on is smaller.
  pub align_address_correct :
      (k : ℕ)
      → 0 < alignment
      → (address ≤ align_address address alignment)
        × (align_address address alignment ≤ address + alignment)
        × (align_address address alignment % alignment ≡ 0)
        × ((k * alignment < address) ⊎ (align_address address alignment ≤ k * alignment))
  align_address_correct k pos = (
    align_address_bounds.0,
    align_address_bounds.1,
    align_address_multiple pos,
    elim (dec_lt (k * alignment) address) [
      | yes below ↦ inl below
      | no above ↦ inr (align_address_least k pos (omega arith))
    ],
  )
