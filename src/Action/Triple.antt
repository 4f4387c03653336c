-- ===== src/Action/Triple.antt =====
-- What holds after an action, of its answer and of the state, when something held before.
use runtime_service.Base.{subst, inl, inr, Bool, true, false, if◌then◌else◌}
use runtime_service.Errors.{Err, Result, Result-cases, ok, err}
use runtime_service.Action.{Action, ◌>>=◌, attempt}

pub record Triple {S A : Type 0} (P : S → Type 0) (m : Action S A) (Q : Result A → S → Type 0)
    : Type 0 where
  pub at : (s : S) → P s → Q (m s).0 (m s).1

module _ {S : Type 0} {P : S → Type 0} where
  -- The first action leads to the second, or its error is that of both.
  pub Triple-bind :
      {A B : Type 0} {m : Action S A} {f : A → Action S B} {R : Result A → S → Type 0}
      {Q : Result B → S → Type 0}
      → Triple P m R
      → ((a : A) → Triple (R (ok a)) (f a) Q)
      → ((e : Err) (s : S) → R (err e) s → Q (err e) s)
      → Triple P (m >>= f) Q
  unfolding ◌>>=◌
  Triple-bind {m = m} {f = f} {R} {Q} first next fails = record {
    at = λ s h. elim (Result-cases (m s).0) [
      | inl (a, e) ↦ rw (e, ◌>>=◌) ((next a).at (m s).1 (subst (λ r. R r (m s).1) e (first.at s h)))
      | inr (g, e) ↦ rw (e, ◌>>=◌) (fails g (m s).1 (subst (λ r. R r (m s).1) e (first.at s h)))
    ];
  }

  -- The answer of an attempt is looked at, so that what follows starts from what is known of it.
  pub Triple-attempt :
      {A B : Type 0} {m : Action S A} (f : Result A → Action S B) {R : Result A → S → Type 0}
      {Q : Result B → S → Type 0}
      → Triple P m R
      → ((a : A) → Triple (R (ok a)) (f (ok a)) Q)
      → ((e : Err) → Triple (R (err e)) (f (err e)) Q)
      → Triple P (attempt m >>= f) Q
  unfolding ◌>>=◌ attempt
  Triple-attempt {m = m} f {R} first done fails = record {
    at = λ s h. elim (Result-cases (m s).0) [
      | inl (a, e) ↦ rw e ((done a).at (m s).1 (subst (λ r. R r (m s).1) e (first.at s h)))
      | inr (g, e) ↦ rw e ((fails g).at (m s).1 (subst (λ r. R r (m s).1) e (first.at s h)))
    ];
  }

  pub Triple-test :
      {A : Type 0} (test : Bool) {m n : Action S A} {Q : Result A → S → Type 0}
      → Triple P m Q
      → Triple P n Q
      → Triple P (if test then m else n) Q
  Triple-test true km kn = km
  Triple-test false km kn = kn
