-- ===== src/Net/Table/Distinct.antt =====
-- What the unique indexes of migrations/0020_fleet_net_leases.up.sql are for: which columns no two rows share.
use runtime_service.Base.{
  ◌≡◌, ◌≢◌, ◌⊎◌, inl, inr, refl, sym, ◌∙◌, ap, Bool, true, false, ==_iff, ==_refl, ℤ, pos_part,
  neg_part, ◌+◌, eq_ℤ, eq_of_parts, List, [], ◌∷◌, All, Memᴰ, some_of, Bool-cases, arith, eq_iff,
  ◌||◌, ◌&&◌,
}
use runtime_service.Net.Lease.{NetLease, NetLeaseOwnerKind, TapName, img, named, kind_eq, tap_eq}
use runtime_service.Net.Table.{clashes}
use runtime_service.Net.Table.Fences.{Fenced, kind_eq→eq, kind_eq_refl}

-- The rows share no net index and no owner, and on one host no slot, no uid and no device.
pub record Differ (l m : NetLease) : Type 0 where
  pub index : l.net_index ≢ m.net_index
  pub owner : l.owner_kind ≡ m.owner_kind → l.owner_id ≢ m.owner_id
  pub slot : l.host_id ≡ m.host_id → l.local_slot ≢ m.local_slot
  pub uid : l.host_id ≡ m.host_id → l.vm_uid ≢ m.vm_uid
  pub device : l.host_id ≡ m.host_id → l.tap_name ≢ m.tap_name

abbrev pub Distinct : List NetLease → Type 0
Distinct [] = Unit
Distinct (l ∷ rows) = All (Differ l) rows × Distinct rows

eq_ℤ→eq : (a b : ℤ) → eq_ℤ a b ≡ true → a ≡ b
eq_ℤ→eq a b h = eq_of_parts a b ((==_iff _ _).0 h)

eq_ℤ_of : (a b : ℤ) → a ≡ b → eq_ℤ a b ≡ true
eq_ℤ_of a b e = rw e (==_refl (pos_part b + neg_part b))

tap_eq→eq : (s t : TapName) → tap_eq s t ≡ true → s ≡ t
tap_eq→eq (img a) (img b) h = ap img (eq_ℤ→eq a b h)
tap_eq→eq (named a) (named b) h = ground (arith, eq_iff a b)
tap_eq→eq (img a) (named b) h = cc
tap_eq→eq (named a) (img b) h = cc

tap_eq_refl : (t : TapName) → tap_eq t t ≡ true
tap_eq_refl (img a) = eq_ℤ_of a a refl
tap_eq_refl (named a) = ground (arith, eq_iff a a)

tap_eq_of : (s t : TapName) → s ≡ t → tap_eq s t ≡ true
tap_eq_of s t e = rw e (tap_eq_refl t)

kind_eq_of : (j k : NetLeaseOwnerKind) → j ≡ k → kind_eq j k ≡ true
kind_eq_of j k e = rw e (kind_eq_refl k)

or_false : (a b : Bool) → (a || b) ≡ false → (a ≡ false) × (b ≡ false)
or_false false b h = (refl, h)
or_false true b h = cc

refuted : (a : Bool) → a ≡ false → a ≡ true → ⊥
refuted a f t = cc

not_true : (a : Bool) → (a ≡ true → ⊥) → a ≡ false
not_true false h = refl
not_true true h = absurd (h refl)

on_host : (a b : Bool) → (a && b) ≡ false → a ≡ true → b ≡ false
on_host true b h e = h
on_host false b h e = cc

clashes-Differ : (l m : NetLease) → clashes l m ≡ false → Differ l m
unfolding clashes
clashes-Differ l m h =
    let (rest, owner) = or_false _ _ h in
    let (index, local) = or_false _ _ rest in
    let at_home =
      λ (e : l.host_id ≡ m.host_id). or_false _ _ (on_host _ _ local ((==_iff _ _).1 e)) in
    record {
      index = λ e. refuted _ index (eq_ℤ_of _ _ e);
      owner = λ k e. refuted _ (on_host _ _ owner (kind_eq_of _ _ k)) ((==_iff _ _).1 e);
      slot = λ e s. refuted _ (at_home e).0 (eq_ℤ_of _ _ s);
      uid = λ e s. refuted _ (or_false _ _ (at_home e).1).0 (eq_ℤ_of _ _ s);
      device = λ e s. refuted _ (or_false _ _ (at_home e).1).1 (tap_eq_of _ _ s);
    }

or_true : (a b : Bool) → (a || b) ≡ true → (a ≡ true) ⊎ (b ≡ true)
or_true true b h = inl refl
or_true false b h = inr h

and_true : (a b : Bool) → (a && b) ≡ true → (a ≡ true) × (b ≡ true)
and_true true b h = (refl, h)
and_true false b h = cc

Differ-clashes : (l m : NetLease) → Differ l m → clashes l m ≡ false
unfolding clashes
Differ-clashes l m d = not_true _ λ h. elim (or_true _ _ h) [
  | inr owned ↦ let (k, o) = and_true _ _ owned in d.owner (kind_eq→eq _ _ k) ((==_iff _ _).0 o)
  | inl rest ↦ elim (or_true _ _ rest) [
    | inl index ↦ d.index (eq_ℤ→eq _ _ index)
    | inr local ↦
        let (home, taken) = and_true _ _ local in
        let e = (==_iff _ _).0 home in
        elim (or_true _ _ taken) [
          | inl slot ↦ d.slot e (eq_ℤ→eq _ _ slot)
          | inr other ↦ elim (or_true _ _ other) [
            | inl uid ↦ d.uid e (eq_ℤ→eq _ _ uid)
            | inr tap ↦ d.device e (tap_eq→eq _ _ tap)
          ]
        ]
  ]
]

none_clashes :
    (l : NetLease) (rows : List NetLease) → some_of (clashes l) rows ≡ false → All (Differ l) rows
none_clashes l [] h = tt
none_clashes l (m ∷ rows) h = elim (Bool-cases (clashes l m)) [
  | inl e ↦ let hit = (rw e at h) in cc
  | inr e ↦ (clashes-Differ l m e, none_clashes l rows (rw e at h))
]

no_clash :
    (l : NetLease) (rows : List NetLease) → All (Differ l) rows → some_of (clashes l) rows ≡ false
no_clash l [] h = refl
no_clash l (m ∷ rows) h = rw (Differ-clashes l m h.0) (no_clash l rows h.1)

pub Fenced-Distinct : (rows : List NetLease) → Fenced rows → Distinct rows
Fenced-Distinct [] f = tt
Fenced-Distinct (l ∷ rows) f = (none_clashes l rows f.0, Fenced-Distinct rows f.1)

pub Distinct-Fenced : (rows : List NetLease) → Distinct rows → Fenced rows
Distinct-Fenced [] d = tt
Distinct-Fenced (l ∷ rows) d = (no_clash l rows d.0, Distinct-Fenced rows d.1)

Differ-sym : (l m : NetLease) → Differ l m → Differ m l
Differ-sym l m d = record {
  index = λ e. d.index (sym e);
  owner = λ k e. d.owner (sym k) (sym e);
  slot = λ h e. d.slot (sym h) (sym e);
  uid = λ h e. d.uid (sym h) (sym e);
  device = λ h e. d.device (sym h) (sym e);
}

among : (l m : NetLease) (rows : List NetLease) → All (Differ l) rows → Memᴰ m rows → Differ l m
among l m [] d held = elim held [ ]
among l m (x ∷ rows) d (Memᴰ.head e) = rw e d.0
among l m (x ∷ rows) d (Memᴰ.tail held) = among l m rows d.1 held

-- A row of the table and any row of the table.
pub pair_Differ :
    (l m : NetLease) (rows : List NetLease)
    → Distinct rows
    → Memᴰ l rows
    → Memᴰ m rows
    → (m ≡ l) ⊎ Differ l m
pair_Differ l m [] d held other = elim held [ ]
pair_Differ l m (x ∷ rows) d (Memᴰ.head e) (Memᴰ.head e') = inl (e' ∙ sym e)
pair_Differ l m (x ∷ rows) d (Memᴰ.head e) (Memᴰ.tail other) = inr (rw e (among x m rows d.0 other))
pair_Differ l m (x ∷ rows) d (Memᴰ.tail held) (Memᴰ.head e') =
    inr (rw e' (Differ-sym x l (among x l rows d.0 held)))
pair_Differ l m (x ∷ rows) d (Memᴰ.tail held) (Memᴰ.tail other) =
    pair_Differ l m rows d.1 held other
