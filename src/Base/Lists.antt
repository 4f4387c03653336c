-- ===== src/Base/Lists.antt =====
-- Lists measured by native numbers, and searches and predicates over them that compute.
use Prim.Native.Nat.{ℕ, suc, ◌+◌}
use mathlib.Core.Path.{◌≡◌, refl, sym}
use mathlib.Core.Logic.{inl, inr}
use mathlib.Core.Bool.{Bool, true, false, not, ◌||◌}
use mathlib.Core.Option.{Option, none, some}
use mathlib.Core.List.{List, [], ◌∷◌, ◌++◌, Memᴰ}
use native.Mathlib.Omega.{arith}
use runtime_service.Base.Tests.{if◌then◌else◌, ◌==◌, Bool-cases}

module _ {ℓ} {A : Type ℓ} where
  abbrev pub length : List A → ℕ
  length [] = 0
  length (x ∷ xs) = suc (length xs)

  pub length-append : (xs ys : List A) → length (xs ++ ys) ≡ length xs + length ys
  length-append [] ys = omega arith
  length-append (x ∷ xs) ys = omega (arith, length-append xs ys)

  -- Every element satisfies the predicate.
  abbrev pub All {κ} : (A → Type κ) → List A → Type κ
  All P [] = Unit
  All P (x ∷ xs) = P x × All P xs

  pub All-trivial : (xs : List A) → All (λ _. Unit {0}) xs
  All-trivial [] = tt
  All-trivial (x ∷ xs) = (tt, All-trivial xs)

  pub All-append {κ} : (P : A → Type κ) (xs ys : List A) → All P xs → All P ys → All P (xs ++ ys)
  All-append P [] ys h k = k
  All-append P (x ∷ xs) ys h k = (h.0, All-append P xs ys h.1 k)

  -- The elements that pass a Boolean test, in order.
  abbrev pub select : (A → Bool) → List A → List A
  select p [] = []
  select p (x ∷ xs) = let rest = select p xs in if p x then x ∷ rest else rest

  -- Whether some element passes a Boolean test.
  abbrev pub some_of : (A → Bool) → List A → Bool
  some_of p [] = false
  some_of p (x ∷ xs) = p x || some_of p xs

  -- The first element that passes a Boolean test.
  abbrev pub first : (A → Bool) → List A → Option A
  first p [] = none
  first p (x ∷ xs) = let rest = first p xs in if p x then some x else rest

module _ {ℓ} {A : Type ℓ} (p : A → Bool) where
  pub first_sound : (xs : List A) (x : A) → first p xs ≡ some x → Memᴰ x xs × (p x ≡ true)
  first_sound [] x h = cc
  first_sound (y ∷ ys) x h = elim (Bool-cases (p y)) [
    | inl e ↦
        let found : some y ≡ some x = rw e at h in
        let same : y ≡ x = cc in (Memᴰ.head (sym same), rw (← same) e)
    | inr e ↦ let rest = first_sound ys x (rw e at h) in (Memᴰ.tail rest.0, rest.1)
  ]

  pub first_absent : (xs : List A) → first p xs ≡ none → (x : A) → Memᴰ x xs → p x ≡ false
  first_absent [] h x m = elim m [ ]
  first_absent (y ∷ ys) h x (Memᴰ.head e) = elim (Bool-cases (p y)) [
    | inl t ↦ let h' : some y ≡ none = (rw t at h) in cc
    | inr f ↦ rw e f
  ]
  first_absent (y ∷ ys) h x (Memᴰ.tail m) = elim (Bool-cases (p y)) [
    | inl t ↦ let h' : some y ≡ none = (rw t at h) in cc
    | inr f ↦ first_absent ys (rw f at h) x m
  ]

  pub some_of_absent : (xs : List A) → some_of p xs ≡ false → (x : A) → Memᴰ x xs → p x ≡ false
  some_of_absent [] h x m = elim m [ ]
  some_of_absent (y ∷ ys) h x (Memᴰ.head e) = rw e (ground arith)
  some_of_absent (y ∷ ys) h x (Memᴰ.tail m) = some_of_absent ys (ground arith) x m

  pub some_of_found : (xs : List A) → some_of p xs ≡ true → (x : A) × Memᴰ x xs × (p x ≡ true)
  some_of_found [] h = cc
  some_of_found (y ∷ ys) h = elim (Bool-cases (p y)) [
    | inl t ↦ (y, Memᴰ.head refl, t)
    | inr f ↦ let (x, m, t) = some_of_found ys (rw f at h) in (x, Memᴰ.tail m, t)
  ]

  pub select_complete : (xs : List A) (x : A) → Memᴰ x xs → p x ≡ true → Memᴰ x (select p xs)
  select_complete [] x m h = elim m [ ]
  select_complete (y ∷ ys) x (Memᴰ.head e) h =
      let passes : p y ≡ true = rw (← e) h in rw passes (Memᴰ.head e)
  select_complete (y ∷ ys) x (Memᴰ.tail m) h = elim (Bool-cases (p y)) [
    | inl t ↦ rw t (Memᴰ.tail (select_complete ys x m h))
    | inr f ↦ rw f (select_complete ys x m h)
  ]

  keep_head :
      (y : A) (ys : List A) (x : A)
      → p y ≡ true
      → (Memᴰ x (select p ys) → Memᴰ x ys × (p x ≡ true))
      → Memᴰ x (y ∷ select p ys)
      → Memᴰ x (y ∷ ys) × (p x ≡ true)
  keep_head y ys x e later (Memᴰ.head same) = (Memᴰ.head same, rw same e)
  keep_head y ys x e later (Memᴰ.tail m) = let rest = later m in (Memᴰ.tail rest.0, rest.1)

  pub select_sound : (xs : List A) (x : A) → Memᴰ x (select p xs) → Memᴰ x xs × (p x ≡ true)
  select_sound [] x m = elim m [ ]
  select_sound (y ∷ ys) x m = elim (Bool-cases (p y)) [
    | inl e ↦ keep_head y ys x e (select_sound ys x) (rw e at m)
    | inr e ↦ let rest = select_sound ys x (rw e at m) in (Memᴰ.tail rest.0, rest.1)
  ]

  pub first-select-not : (xs : List A) → first p (select (λ x. not (p x)) xs) ≡ none
  first-select-not [] = refl
  first-select-not (x ∷ xs) = ground (arith, first-select-not xs)

-- Whether a number occurs.
abbrev pub contains : ℕ → List ℕ → Bool
contains n [] = false
contains n (m ∷ ms) = m == n || contains n ms
