-- ===== src/Fleet/Reconcile/Surplus.antt =====
-- The order in which a surplus is drained.
use mathlib.Core.List.{Perm}
use mathlib.Core.List.Perm
use runtime_service.Base.{
  ◌≡◌, refl, inl, inr, Bool, true, false, List, [], ◌∷◌, All, ◌≤ℤ◌, if◌then◌else◌, Bool-cases,
  arith,
}
use runtime_service.Fleet.Replica.{Replica, ReplicaState, scheduled, booting}
use runtime_service.Fleet.Reconcile

-- By the test of the code: no replica is before one that stands earlier.
abbrev IsTested : List Replica → Type 0
IsTested [] = Unit
IsTested (r ∷ rs) = All (λ s. Reconcile.drains_before s r ≡ false) rs × IsTested rs

-- What does not drain before b does not drain before what b does not drain before.
not_before_trans :
    (a b c : Replica)
    → Reconcile.drains_before c b ≡ false
    → Reconcile.drains_before b a ≡ false
    → Reconcile.drains_before c a ≡ false
unfolding Reconcile.drains_before
not_before_trans a b c h k = ground arith

asymmetric :
    (a b : Replica) → Reconcile.drains_before a b ≡ true → Reconcile.drains_before b a ≡ false
unfolding Reconcile.drains_before
asymmetric a b h = ground arith

-- What does not drain before s does not drain before what s does not drain before.
later_not_before :
    (r s : Replica) (ts : List Replica)
    → Reconcile.drains_before s r ≡ false
    → All (λ t. Reconcile.drains_before t s ≡ false) ts
    → All (λ t. Reconcile.drains_before t r ≡ false) ts
later_not_before r s [] h k = tt
later_not_before r s (t ∷ ts) h k = (not_before_trans r s t k.0 h, later_not_before r s ts h k.1)

insert-All :
    (P : Replica → Type 0) (r : Replica) (rs : List Replica)
    → P r
    → All P rs
    → All P (Reconcile.insert_surplus r rs)
unfolding Reconcile.insert_surplus
insert-All P r [] h k = (h, tt)
insert-All P r (s ∷ ss) h k = elim (Bool-cases (Reconcile.drains_before s r)) [
  | inl e ↦ rw e (k.0, insert-All P r ss h k.1)
  | inr e ↦ rw e (h, k)
]

insert-IsTested :
    (r : Replica) (rs : List Replica) → IsTested rs → IsTested (Reconcile.insert_surplus r rs)
unfolding Reconcile.insert_surplus
insert-IsTested r [] h = (tt, tt)
insert-IsTested r (s ∷ ss) h = elim (Bool-cases (Reconcile.drains_before s r)) [
  | inl e ↦ rw e (insert-All _ r ss (asymmetric s r e) h.0, insert-IsTested r ss h.1)
  | inr e ↦ rw e ((e, later_not_before r s ss e h.0), h)
]

insert-perm : (r : Replica) (rs : List Replica) → Perm (Reconcile.insert_surplus r rs) (r ∷ rs)
unfolding Reconcile.insert_surplus
insert-perm r [] = Perm.refl _
insert-perm r (s ∷ ss) = elim (Bool-cases (Reconcile.drains_before s r)) [
  | inl e ↦ rw e (Perm.trans (Perm.cons s (insert-perm r ss)) (Perm.swap r s ss))
  | inr e ↦ rw e (Perm.refl _)
]

surplus_order-perm : (rs : List Replica) → Perm (Reconcile.surplus_order rs) rs
unfolding Reconcile.surplus_order
surplus_order-perm [] = Perm.refl _
surplus_order-perm (r ∷ rs) =
    Perm.trans (insert-perm r (Reconcile.surplus_order rs)) (Perm.cons r (surplus_order-perm rs))

ordered : (rs : List Replica) → IsTested (Reconcile.surplus_order rs)
unfolding Reconcile.surplus_order
ordered [] = tt
ordered (r ∷ rs) = insert-IsTested r (Reconcile.surplus_order rs) (ordered rs)

-- A replica that has no process yet, or only starts one.
abbrev pub is_pending : ReplicaState → Bool
is_pending scheduled = true
is_pending booting = true
is_pending _ = false

-- Pending replicas drain first, and of those that are pending alike the newest.
abbrev pub MayPrecede : Replica → Replica → Type 0
MayPrecede r s =
    (is_pending s.state ≡ true → is_pending r.state ≡ true)
    × (is_pending s.state ≡ is_pending r.state → s.created_at ≤ℤ r.created_at)

abbrev pub IsDrainOrder : List Replica → Type 0
IsDrainOrder [] = Unit
IsDrainOrder (r ∷ rs) = All (MayPrecede r) rs × IsDrainOrder rs

rank_of_pending : (s : ReplicaState) → Reconcile.drain_rank s ≡ (if is_pending s then 0 else 1)
rank_of_pending scheduled = refl
rank_of_pending booting = refl
rank_of_pending _ = refl

may_precede : (r s : Replica) → Reconcile.drains_before s r ≡ false → MayPrecede r s
unfolding Reconcile.drains_before
may_precede r s h = ground (arith, rank_of_pending r.state, rank_of_pending s.state)

All-MayPrecede :
    (r : Replica) (rs : List Replica)
    → All (λ s. Reconcile.drains_before s r ≡ false) rs
    → All (MayPrecede r) rs
All-MayPrecede r [] h = tt
All-MayPrecede r (s ∷ ss) h = (may_precede r s h.0, All-MayPrecede r ss h.1)

in_order : (rs : List Replica) → IsTested rs → IsDrainOrder rs
in_order [] h = tt
in_order (r ∷ rs) h = (All-MayPrecede r rs h.0, in_order rs h.1)

-- surplusOrder rearranges the replicas so that whatever stands before a scheduled or booting one is
-- scheduled or booting too, and that of those that are alike in this none is older than a later one.
pub surplus_order-IsDrainOrder :
    (rs : List Replica)
    → Perm (Reconcile.surplus_order rs) rs × IsDrainOrder (Reconcile.surplus_order rs)
surplus_order-IsDrainOrder rs = (surplus_order-perm rs, in_order _ (ordered rs))
