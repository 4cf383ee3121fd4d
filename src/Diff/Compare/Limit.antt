-- ===== src/Diff/Compare/Limit.antt =====
-- What limits the bytes of a file that a comparison reads, in internal/diff/diff.go.
use zscalerctl.Prelude.{
  ℕ, ◌+◌, ◌-◌, ◌≤◌, Bool, true, false, ◌≡◌, refl, inl, inr, if◌then◌else◌, leb, ltb, arith, ◌<◌,
  ◌↔◌, Bool-cases,
}
use zscalerctl.Prelude.Int.{ℤ, pos, negsuc, is_negative, subtract, subtract_le}
use zscalerctl.Diff.Compare.{
  max_resource_bytes, resource_read_limit, collection_too_large, LimitError, invalid_dump,
}

-- `n ≤ z`, for the bytes of a file that is read under the limit `z`.
abbrev pub Fits : ℕ → ℤ → Type 0
Fits n (pos limit) = n ≤ limit
Fits n (negsuc limit) = ⊥

-- A total of bytes is within the budget; a negative budget is none.
abbrev pub IsWithin : ℤ → ℕ → Type 0
IsWithin (pos byte_budget) total = total ≤ byte_budget
IsWithin (negsuc n) total = Unit

-- What a limit and its error mean for a file of `n` bytes.
abbrev pub IsLimitFor : ℤ → ℕ → ℕ → ℤ × LimitError → Type 0
IsLimitFor byte_budget loaded_bytes n limit =
    (is_negative limit.0 ≡ false)
    × (0 < n
        → Fits n limit.0 ↔ ((n ≤ max_resource_bytes) × IsWithin byte_budget (loaded_bytes + n)))
    × ((limit.1 ≡ collection_too_large)
        ↔ ¬ IsWithin byte_budget (loaded_bytes + max_resource_bytes))

limit_under_budget :
    (b l n : ℕ)
    → l < b
    → (small : Bool) → ltb (b - l) max_resource_bytes ≡ small
    → IsLimitFor (pos b) l n (
        if small
        then (pos (b - l), collection_too_large)
        else (pos max_resource_bytes, invalid_dump))
limit_under_budget b l n h true e =
    let below : b - l < 536870912 = ground arith in
    (
      refl,
      λ some_bytes. (
        λ fits. (omega (arith, h, below, fits), omega (arith, h, fits)),
        λ (one, all). omega (arith, h, all),
      ),
      (λ same. λ all. omega (arith, h, below, all), λ over. refl),
    )
limit_under_budget b l n h false e =
    let above : 536870912 ≤ b - l = ground arith in
    (
      refl,
      λ some_bytes. (λ fits. (fits, omega (arith, h, above, fits)), λ (one, all). one),
      (λ same. cc, λ over. elim (over (omega (arith, h, above))) [ ]),
    )

-- A file that is not empty fits the limit exactly if it has at most the bytes of one resource and,
-- with the bytes already loaded, stays within the budget, which a negative number does not set; the
-- limit is never negative; and its error is that of the budget exactly if the largest resource
-- would exceed the budget.
pub resource_read_limit-IsLimitFor :
    (byte_budget : ℤ) (loaded_bytes n : ℕ)
    → IsLimitFor byte_budget loaded_bytes n (resource_read_limit byte_budget loaded_bytes)
unfolding subtract
resource_read_limit-IsLimitFor (negsuc k) l n = (
  refl,
  λ some_bytes. (λ fits. (fits, tt), λ (one, all). one),
  (λ same. cc, λ over. elim (over tt) [ ]),
)
resource_read_limit-IsLimitFor (pos b) l n = elim (Bool-cases (leb b l)) [
  | inl e ↦
      let spent : b ≤ l = ground arith in
      rw e (
        refl,
        λ some_bytes. (
          λ fits. omega (arith, some_bytes, fits),
          λ (one, all). omega (arith, spent, some_bytes, all),
        ),
        (λ same. λ all. omega (arith, spent, all), λ over. refl),
      )
  | inr e ↦
      let left : l < b = ground arith in
      rw (e, subtract_le b l (omega (arith, left)))
        (limit_under_budget b l n left (ltb (b - l) max_resource_bytes) refl)
]
