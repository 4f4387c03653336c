-- ===== src/Net/Allocator/Search.antt =====
-- The search for the lowest free slot.
use runtime_service.Base.{
  ℕ, zero, suc, ◌+◌, ◌≤◌, ◌<◌, ◌≡◌, refl, ◌⊎◌, inl, inr, Bool, true, false, ℤ, pos, eq_ℤ, List,
  some_of, Bool-cases, arith, dec_lt,
}
use runtime_service.Net.Allocator.{lowest_free}

abbrev pub is_taken : List ℤ → ℕ → Bool
is_taken taken slot = some_of (eq_ℤ (pos slot)) taken

-- Every slot from the first to below the second is taken.
abbrev pub AllTaken : List ℤ → ℕ → ℕ → Type 0
AllTaken taken from to = (k : ℕ) → from ≤ k → k < to → is_taken taken k ≡ true

-- 0 when the whole range is taken, else the lowest slot of the range that is free.
abbrev pub IsLowest : List ℤ → ℕ → ℕ → ℕ → Type 0
IsLowest taken rounds candidate slot =
    ((slot ≡ 0) × AllTaken taken candidate (candidate + rounds))
    ⊎ ((candidate ≤ slot)
        × (slot < candidate + rounds)
        × (is_taken taken slot ≡ false)
        × AllTaken taken candidate slot)

AllTaken-extend :
    (taken : List ℤ) (c n m : ℕ)
    → is_taken taken c ≡ true
    → n ≡ m
    → AllTaken taken (suc c) n
    → AllTaken taken c m
AllTaken-extend taken c n m t e h k l u = elim (dec_lt c k) [
  | yes p ↦ h k p (omega arith)
  | no p ↦ let same : c ≡ k = omega arith in rw (← same) t
]

IsLowest-extend :
    (taken : List ℤ) (rounds c slot : ℕ)
    → is_taken taken c ≡ true
    → IsLowest taken rounds (suc c) slot
    → IsLowest taken (suc rounds) c slot
IsLowest-extend taken rounds c slot t (inl (z, h)) =
    inl (z, AllTaken-extend taken c _ _ t (omega arith) h)
IsLowest-extend taken rounds c slot t (inr (l, u, f, h)) =
    inr (omega arith, omega arith, f, AllTaken-extend taken c _ _ t refl h)

-- The search returns the lowest slot of its range that is not taken, and 0 only if all are taken.
pub lowest_free-IsLowest :
    (rounds candidate : ℕ) (taken : List ℤ)
    → IsLowest taken rounds candidate (lowest_free rounds candidate taken)
unfolding lowest_free
lowest_free-IsLowest zero candidate taken = inl (refl, λ k l u. absurd (omega arith))
lowest_free-IsLowest (suc rounds) candidate taken = elim (Bool-cases (is_taken taken candidate)) [
  | inl e ↦ rw e (
      IsLowest-extend taken rounds candidate _ e
        (lowest_free-IsLowest rounds (suc candidate) taken))
  | inr e ↦ rw e (inr (omega arith, omega arith, e, λ k l u. absurd (omega arith)))
]
