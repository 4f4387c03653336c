-- ===== src/Net/Plane/Rules.antt =====
-- Invariants of a pass, one rule for each way to build an action.
use runtime_service.Base.{
  ℕ, ◌≡◌, refl, inl, inr, Bool, true, false, if◌then◌else◌, List, [], ◌∷◌, Memᴰ,
}
use runtime_service.Errors.{Result, Result-cases, ok}
use runtime_service.Net.Plane.{
  State, M, ◌>>=◌, lift, attempt, query, tally, each, NetLeaseReconcileReport, Event,
}

-- The action keeps the predicate, whether it succeeds or fails.
pub record Keeps {A : Type 0} (P : State → Type 0) (m : M A) : Type 0 where
  pub at : (s : State) → P s → P (m s).1

module _ {P : State → Type 0} where
  pub Keeps-lift : {A : Type 0} (answer : Result A) → Keeps P (lift answer)
  Keeps-lift answer = record { at = λ s h. h }

  pub Keeps-attempt : {A : Type 0} (m : M A) → Keeps P m → Keeps P (attempt m)
  Keeps-attempt m k = record { at = k.at }

  pub Keeps-then :
      {A B : Type 0} (m : M A) (f : A → M B)
      → Keeps P m
      → ((a : A) (s : State) → (m s).0 ≡ ok a → Keeps P (f a))
      → Keeps P (m >>= f)
  Keeps-then m f km kf = record {
    at = λ s h. elim (Result-cases (m s).0) [
      | inl (a, e) ↦ rw (e, ◌>>=◌) ((kf a s e).at (m s).1 (km.at s h))
      | inr (e, failed) ↦ rw (failed, ◌>>=◌) (km.at s h)
    ];
  }

  pub Keeps-bind :
      {A B : Type 0} (m : M A) (f : A → M B)
      → Keeps P m
      → ((a : A) → Keeps P (f a))
      → Keeps P (m >>= f)
  Keeps-bind m f km kf = Keeps-then m f km λ a s e. kf a

  pub Keeps-test :
      {A : Type 0} (test : Bool) (m n : M A)
      → (test ≡ true → Keeps P m)
      → (test ≡ false → Keeps P n)
      → Keeps P (if test then m else n)
  Keeps-test true m n km kn = km refl
  Keeps-test false m n km kn = kn refl

  pub Keeps-each :
      {A : Type 0} (f : A → M (Unit {0})) (xs : List A)
      → ((x : A) → Memᴰ x xs → Keeps P (f x))
      → Keeps P (each f xs)
  unfolding each
  Keeps-each f [] kf = record { at = λ s h. h }
  Keeps-each f (x ∷ xs) kf =
      Keeps-bind (f x) _ (kf x (Memᴰ.head refl)) λ done. Keeps-each f xs λ y m. kf y (Memᴰ.tail m)

-- What is said of the log alone survives a question and a count.
pub Keeps-query :
    {A : Type 0} (Q : List Event → Type 0) (f : ℕ → Result A) → Keeps (λ s. Q s.log) (query f)
Keeps-query Q f = record { at = λ s h. h }

pub Keeps-tally :
    (Q : List Event → Type 0) (f : NetLeaseReconcileReport → NetLeaseReconcileReport)
    → Keeps (λ s. Q s.log) (tally f)
Keeps-tally Q f = record { at = λ s h. h }

-- An action that succeeds has parts that succeed.
pub bind_ok :
    {A B : Type 0} (m : M A) (f : A → M B) (s : State) (b : B)
    → ((m >>= f) s).0 ≡ ok b
    → (a : A) × ((m s).0 ≡ ok a) × ((f a (m s).1).0 ≡ ok b) × ((m >>= f) s ≡ f a (m s).1)
bind_ok m f s b h = elim (Result-cases (m s).0) [
  | inl (a, e) ↦ (a, e, rw (e, ◌>>=◌) at h, rw (e, ◌>>=◌) refl)
  | inr (e, failed) ↦ let wrong = (rw (failed, ◌>>=◌) at h) in cc
]
