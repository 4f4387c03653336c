-- ===== src/Action.antt =====
-- Go code that changes a state and may fail, as a function of the state; a failure keeps the changes made.
pub mod Triple
use runtime_service.Base.{List, [], ◌∷◌}
use runtime_service.Errors.{Result, ok, err}

abbrev pub Action : Type 0 → Type 0 → Type 0
Action S A = S → Result A × S

infixl 5 ◌>>=◌ ◌>>◌
unfoldable pub ◌>>=◌ : {S A B : Type 0} → Action S A → (A → Action S B) → Action S B
◌>>=◌ m f s = let (r, s') = m s in elim r [ ok a ↦ f a s' | err e ↦ (err e, s') ]

abbrev pub ◌>>◌ : {S A B : Type 0} → Action S A → Action S B → Action S B
m >> n = m >>= λ _. n

unfoldable pub lift : {S A : Type 0} → Result A → Action S A
lift r s = (r, s)

unfoldable pub pure : {S A : Type 0} → A → Action S A
pure a s = (ok a, s)

-- `err := m`: the error is a value that the code looks at.
unfoldable pub attempt : {S A : Type 0} → Action S A → Action S (Result A)
attempt m s = let (r, s') = m s in (ok r, s')

unfoldable pub modify : {S : Type 0} → (S → S) → Action S (Unit {0})
modify f s = (ok tt, f s)
