-- ===== src/Sandbox/SubnetPool/Moves.antt =====
-- Moving a key from one map to another that has none of its keys.
use runtime_service.Base.{
  ℕ, zero, suc, ◌+◌, ◌≡◌, refl, inl, inr, Bool, true, false, not, ◌&&◌, List, [], ◌∷◌, length, All,
  select, Bool-cases, arith,
}
use runtime_service.Sandbox.SubnetPool.{Subnet, same, held, drop, put, pick}

-- No key twice.
abbrev pub IsDistinct : List Subnet → Type 0
IsDistinct [] = Unit
IsDistinct (s ∷ ts) = (held s ts ≡ false) × IsDistinct ts

-- Two maps without a common key, of so many keys together.
abbrev pub IsSplit : List Subnet → List Subnet → ℕ → Type 0
IsSplit a b n =
    IsDistinct a
    × IsDistinct b
    × ((s : Subnet) → (held s a && held s b) ≡ false)
    × (length a + length b ≡ n)

held-drop : (s t : Subnet) (a : List Subnet) → held t (drop s a) ≡ (held t a && not (same s t))
held-drop s t [] = refl
held-drop s t (x ∷ a) = ground (arith, held-drop s t a)

drop_absent : (s : Subnet) (a : List Subnet) → held s a ≡ false → drop s a ≡ a
drop_absent s [] h = refl
drop_absent s (x ∷ a) h = ground (arith, drop_absent s a)

IsDistinct-drop : (s : Subnet) (a : List Subnet) → IsDistinct a → IsDistinct (drop s a)
IsDistinct-drop s [] d = tt
IsDistinct-drop s (x ∷ a) d = ground (arith, held-drop s x a, IsDistinct-drop s a)

same-held : (s x : Subnet) (a : List Subnet) → same s x ≡ true → held s a ≡ held x a
same-held s x [] h = refl
same-held s x (y ∷ a) h = ground (arith, same-held s x a)

length-drop :
    (s : Subnet) (a : List Subnet)
    → IsDistinct a
    → held s a ≡ true
    → suc (length (drop s a)) ≡ length a
length-drop s [] d h = cc
length-drop s (x ∷ a) d h = elim (Bool-cases (same s x)) [
  | inl first ↦ ground (arith, drop_absent s a, same-held s x a)
  | inr other ↦ ground (arith, length-drop s a)
]

put_absent : (s : Subnet) (b : List Subnet) → held s b ≡ false → put s b ≡ s ∷ b
put_absent s b h = rw h refl

pub move-IsSplit :
    (s : Subnet) (a b : List Subnet) (n : ℕ)
    → IsSplit a b n
    → held s a ≡ true
    → IsSplit (drop s a) (put s b) n
move-IsSplit s a b n (da, db, apart, count) h =
    let absent : held s b ≡ false = ground (arith, apart s) in
    rw (put_absent s b absent) (
      IsDistinct-drop s a da,
      (absent, db),
      λ t. ground (arith, apart t, held-drop s t a),
      omega (arith, length-drop s a da h),
    )

pub swap-IsSplit : (a b : List Subnet) (n : ℕ) → IsSplit a b n → IsSplit b a n
swap-IsSplit a b n (da, db, apart, count) = (db, da, λ s. ground (arith, apart s), omega arith)

pub held-pick : (order : ℕ) (s : Subnet) (ts : List Subnet) → held (pick order s ts) (s ∷ ts) ≡ true
held-pick zero s ts = ground arith
held-pick (suc n) s [] = ground arith
held-pick (suc n) s (t ∷ ts) = ground (arith, held-pick n t ts)

All-select :
    (P : Subnet → Type 0) (p : Subnet → Bool) (a : List Subnet) → All P a → All P (select p a)
All-select P p [] h = tt
All-select P p (x ∷ a) h = elim (Bool-cases (p x)) [
  | inl keep ↦ rw keep (h.0, All-select P p a h.1)
  | inr lose ↦ rw lose (All-select P p a h.1)
]

pub All-drop : (P : Subnet → Type 0) (s : Subnet) (a : List Subnet) → All P a → All P (drop s a)
All-drop P s a h = All-select P _ a h

pub All-put : (P : Subnet → Type 0) (s : Subnet) (b : List Subnet) → P s → All P b → All P (put s b)
All-put P s b p h = elim (Bool-cases (held s b)) [
  | inl there ↦ rw there h
  | inr absent ↦ rw absent (p, h)
]

-- A key that is held has what all keys have.
pub All-held :
    (P : Subnet → Type 0) (s : Subnet) (a : List Subnet) → All P a → held s a ≡ true → P s
All-held P s [] h k = cc
All-held P s (x ∷ a) h k = elim (Bool-cases (same s x)) [
  | inl first ↦ let e : s ≡ x = ground arith in rw e h.0
  | inr other ↦ All-held P s a h.1 (ground arith)
]

pub disjoint-cons :
    (x : Subnet) (a b : List Subnet)
    → held x a ≡ false
    → ((s : Subnet) → (held s a && held s b) ≡ false)
    → (s : Subnet) → (held s a && held s (x ∷ b)) ≡ false
disjoint-cons x a b h apart s = elim (Bool-cases (same s x)) [
  | inl e ↦ rw (same-held s x a e, h) refl
  | inr other ↦ rw other (apart s)
]
