-- ===== src/Execution/TestRun/Retries.antt =====
-- How often TryRetry of internal/domain/test_run.go grants a retry.
use runtime_service.Base.{
  ◌+◌, ◌≤◌, ◌≡◌, refl, inl, inr, true, false, not, ℤ, pos, ◌+ℤ◌, ◌≤ℤ◌, leb_ℤ, InInt64, wrap, List,
  [], ◌∷◌, Text, Bool-cases, arith, ◌<◌, ◌⊎◌, pos_part,
}
use runtime_service.Execution.TestRun.{TestRun, is_transient_error, retry_limit, try_retry, retries}

-- The count is a number of retries, and both numbers fit in an int.
abbrev pub IsCounted : TestRun → Type 0
IsCounted t = (pos 0 ≤ℤ t.retry_count) × InInt64 t.retry_count × InInt64 t.max_retries

-- A retry that is granted, from one run to the next.
abbrev IsGranted : TestRun → TestRun → Type 0
IsGranted t u =
    (pos_part t.retry_count < pos_part (retry_limit t))
    × (u.retry_count ≡ pos (pos_part t.retry_count + 1))
    × (u.max_retries ≡ t.max_retries)

next_count :
    (x l : ℤ)
    → pos 0 ≤ℤ x
    → InInt64 l
    → leb_ℤ l x ≡ false
    → (pos_part x < pos_part l) × (wrap (x +ℤ pos 1) ≡ pos (pos_part x + 1))
unfolding wrap ◌+ℤ◌
next_count x l h i k = ground arith

limit-InInt64 : (t : TestRun) → InInt64 t.max_retries → InInt64 (retry_limit t)
limit-InInt64 t i = ground arith

retry_step :
    (now : ℤ) (message : Text) (t : TestRun)
    → IsCounted t
    → (try_retry now message t ≡ (false, t))
      ⊎ (((try_retry now message t).0 ≡ true) × IsGranted t (try_retry now message t).1)
unfolding try_retry
retry_step now message t (low, i, k) = elim (Bool-cases (not (is_transient_error message))) [
  | inl lasting ↦ rw lasting (inl refl)
  | inr transient ↦ elim (Bool-cases (leb_ℤ (retry_limit t) t.retry_count)) [
    | inl spent ↦ rw (transient, spent) (inl refl)
    | inr more ↦
        let (below, next) = next_count t.retry_count (retry_limit t) low (limit-InInt64 t k) more in
        rw (transient, more) (inr (refl, (below, next, refl)))
  ]
]

-- Whatever errors a test run meets whose count of retries is not negative, the retries that it is granted
-- and those it had before are together no more than its limit, or it is granted none; and its count of
-- retries goes up by those granted.
pub retries_bounded :
    (es : List (ℤ × Text)) (t : TestRun)
    → IsCounted t
    → (((retries es t).0 ≡ 0)
        ⊎ (pos_part t.retry_count + (retries es t).0 ≤ pos_part (retry_limit t)))
      × (pos_part (retries es t).1.retry_count ≡ pos_part t.retry_count + (retries es t).0)
unfolding retries
retries_bounded [] t c = (inl refl, omega arith)
retries_bounded ((now, message) ∷ es) t c = elim (retry_step now message t c) [
  | inl none_left ↦ rw none_left (retries_bounded es t c)
  | inr (granted, (below, next, same)) ↦
      let u : TestRun = (try_retry now message t).1 in
      let counted : IsCounted u =
        let limit = limit-InInt64 t c.2 in
        rw (next, same) (omega arith, (omega arith, omega arith), c.2) in
      let level : retry_limit u ≡ retry_limit t = rw same refl in
      let at : pos_part u.retry_count ≡ pos_part t.retry_count + 1 = rw next refl in
      let ih = retries_bounded es u counted in
      rw granted (
        inr (elim ih.0 [
          | inl none_later ↦ rw none_later (omega arith)
          | inr later ↦ let later' = (rw level at later) in omega arith
        ]),
        omega arith,
      )
]
