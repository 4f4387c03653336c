-- ===== src/Net/Table/Fences.antt =====
-- The unique indexes of the lease table hold after every change.
use runtime_service.Base.{
  ℕ, ◌≡◌, refl, sym, ◌∙◌, pos_part, neg_part, ◌+◌, ==_refl, inl, inr, Bool, true, false, not, List,
  [], ◌∷◌, Memᴰ, some, first, select, some_of, Bool-cases, Option-cases, first_sound, first_absent,
  select_complete, first-select-not, some_of_absent, arith, eq_iff,
}
use runtime_service.Errors.{ok, err, fence, net_lease_not_found}
use runtime_service.Net.Lease.{
  NetLease, NetLeaseOwnerKind, replica, workload, unrecognized, kind_eq,
}
use runtime_service.Net.Table.{
  clashes, row_is_legal, acquire, find_by_owner, release, owned_by, Change, inserts, deletes, apply,
  apply_all,
}

-- No two rows share a coordinate or an owner.
abbrev pub Fenced : List NetLease → Type 0
Fenced [] = Unit
Fenced (l ∷ rows) = (some_of (clashes l) rows ≡ false) × Fenced rows

pub acquire-Fenced : (l : NetLease) (rows : List NetLease) → Fenced rows → Fenced (acquire l rows).1
unfolding acquire
acquire-Fenced l rows f = ground arith

some_of-select :
    (p q : NetLease → Bool) (rows : List NetLease)
    → some_of p rows ≡ false
    → some_of p (select q rows) ≡ false
some_of-select p q [] h = refl
some_of-select p q (m ∷ rows) h = ground (arith, some_of-select p q rows)

pub select-Fenced :
    (q : NetLease → Bool) (rows : List NetLease) → Fenced rows → Fenced (select q rows)
select-Fenced q [] f = tt
select-Fenced q (l ∷ rows) f =
    ground (arith, some_of-select (clashes l) q rows, select-Fenced q rows)

pub apply-Fenced : (c : Change) (rows : List NetLease) → Fenced rows → Fenced (apply c rows)
unfolding apply release
apply-Fenced (inserts l) rows f = acquire-Fenced l rows f
apply-Fenced (deletes kind owner) rows f = select-Fenced _ rows f

pub apply_all-Fenced :
    (cs : List Change) (rows : List NetLease) → Fenced rows → Fenced (apply_all cs rows)
unfolding apply_all
apply_all-Fenced [] rows f = f
apply_all-Fenced (c ∷ cs) rows f = apply_all-Fenced cs (apply c rows) (apply-Fenced c rows f)

pub kind_eq→eq : (j k : NetLeaseOwnerKind) → kind_eq j k ≡ true → j ≡ k
kind_eq→eq replica replica h = refl
kind_eq→eq workload workload h = refl
kind_eq→eq (unrecognized s) (unrecognized t) h = ground (arith, eq_iff s t)
kind_eq→eq replica workload h = cc
kind_eq→eq replica (unrecognized t) h = cc
kind_eq→eq workload replica h = cc
kind_eq→eq workload (unrecognized t) h = cc
kind_eq→eq (unrecognized s) replica h = cc
kind_eq→eq (unrecognized s) workload h = cc

-- What a lookup by owner finds is a row, and the owner's.
pub find_by_owner_sound :
    (kind : NetLeaseOwnerKind) (owner : ℕ) (rows : List NetLease) (l : NetLease)
    → find_by_owner kind owner rows ≡ ok l
    → Memᴰ l rows × (l.owner_kind ≡ kind) × (l.owner_id ≡ owner)
unfolding find_by_owner
find_by_owner_sound kind owner rows l h = elim (Option-cases (first (owned_by kind owner) rows)) [
  | inl e ↦ let refused = (rw (e, find_by_owner) at h) in cc
  | inr (m, e) ↦
      let found : ok m ≡ ok l = rw e at h in
      let same : m ≡ l = cc in
      let (held, owned) = first_sound (owned_by kind owner) rows l (rw (← same) e) in
      (held, kind_eq→eq _ _ (ground arith), ground arith)
]

pub release-Fenced :
    (kind : NetLeaseOwnerKind) (owner : ℕ) (rows : List NetLease)
    → Fenced rows
    → Fenced (release kind owner rows)
unfolding release
release-Fenced kind owner rows f = select-Fenced _ rows f

-- A successful insert leaves the row in the table.
pub acquire-mem :
    (l : NetLease) (rows : List NetLease) → (acquire l rows).0 ≡ ok tt → Memᴰ l (acquire l rows).1
unfolding acquire
acquire-mem l rows h = elim (Bool-cases (some_of (clashes l) rows)) [
  | inl e ↦ let refused = (rw e at h) in cc
  | inr e ↦ elim (Bool-cases (row_is_legal l)) [
    | inl legal ↦ rw (e, legal) (Memᴰ.head refl)
    | inr illegal ↦ let refused = (rw (e, illegal) at h) in cc
  ]
]

pub kind_eq_refl : (k : NetLeaseOwnerKind) → kind_eq k k ≡ true
kind_eq_refl replica = refl
kind_eq_refl workload = refl
kind_eq_refl (unrecognized s) = ground (arith, eq_iff s s)

-- Two rows of one owner are one row.
pub owner_unique :
    (kind : NetLeaseOwnerKind) (owner : ℕ) (rows : List NetLease) (l m : NetLease)
    → Fenced rows
    → Memᴰ l rows
    → owned_by kind owner l ≡ true
    → first (owned_by kind owner) rows ≡ some m
    → l ≡ m
unfolding clashes
owner_unique kind owner [] l m f held own found = elim held [ ]
owner_unique kind owner (x ∷ rows) l m f (Memᴰ.head e) own found =
    let passes : owned_by kind owner x ≡ true = rw (← e) own in
    let found' : some x ≡ some m = rw passes at found in cc
owner_unique kind owner (x ∷ rows) l m f (Memᴰ.tail held) own found =
    elim (Bool-cases (owned_by kind owner x)) [
      | inr other ↦ owner_unique kind owner rows l m f.1 held own (rw other at found)
      | inl same ↦
          let apart = some_of_absent (clashes x) rows f.0 l held in
          let k = kind_eq→eq x.owner_kind kind (ground arith) in
          let k' = kind_eq→eq l.owner_kind kind (ground arith) in
          absurd (ground (arith, kind_eq_refl kind))
    ]

-- A row of an owner is what a lookup of the owner finds.
pub find_by_owner_complete :
    (kind : NetLeaseOwnerKind) (owner : ℕ) (rows : List NetLease) (l : NetLease)
    → Fenced rows
    → Memᴰ l rows
    → l.owner_kind ≡ kind
    → l.owner_id ≡ owner
    → find_by_owner kind owner rows ≡ ok l
unfolding find_by_owner
find_by_owner_complete kind owner rows l f held k o =
    let own : owned_by kind owner l ≡ true = ground (arith, kind_eq_refl kind) in
    elim (Option-cases (first (owned_by kind owner) rows)) [
      | inl e ↦ let missed = first_absent (owned_by kind owner) rows e l held in cc
      | inr (m, e) ↦ rw (e, ← owner_unique kind owner rows l m f held own e)
    ]

-- After a release the owner holds nothing.
pub find-release :
    (kind : NetLeaseOwnerKind) (owner : ℕ) (rows : List NetLease)
    → find_by_owner kind owner (release kind owner rows) ≡ err (fence net_lease_not_found)
unfolding find_by_owner release
find-release kind owner rows = rw (first-select-not (owned_by kind owner) rows)

pub find_by_owner-first :
    (kind : NetLeaseOwnerKind) (owner : ℕ) (rows : List NetLease) (l : NetLease)
    → find_by_owner kind owner rows ≡ ok l
    → first (owned_by kind owner) rows ≡ some l
unfolding find_by_owner
find_by_owner-first kind owner rows l h = elim (Option-cases (first (owned_by kind owner) rows)) [
  | inl e ↦ let missed = (rw e at h) in cc
  | inr (m, e) ↦ let found : ok m ≡ ok l = rw e at h in let same : m ≡ l = cc in rw (← same) e
]

-- A release keeps the rows of other owners.
pub release-mem :
    (kind : NetLeaseOwnerKind) (owner : ℕ) (rows : List NetLease) (l : NetLease)
    → Memᴰ l rows
    → owned_by kind owner l ≡ false
    → Memᴰ l (release kind owner rows)
unfolding release
release-mem kind owner rows l m other =
    select_complete (λ x. not (owned_by kind owner x)) rows l m (rw other)

-- Two rows of one net index are one row.
pub net_index_unique :
    (rows : List NetLease) (l m : NetLease)
    → Fenced rows
    → Memᴰ l rows
    → Memᴰ m rows
    → l.net_index ≡ m.net_index
    → l ≡ m
unfolding clashes
net_index_unique [] l m f held other same = elim held [ ]
net_index_unique (x ∷ rows) l m f (Memᴰ.head e) (Memᴰ.head e') same = e ∙ sym e'
net_index_unique (x ∷ rows) l m f (Memᴰ.head e) (Memᴰ.tail other) same =
    let apart = some_of_absent (clashes x) rows f.0 m other in
    let index : x.net_index ≡ m.net_index = rw (← e) same in
    absurd (ground (arith, ==_refl (pos_part m.net_index + neg_part m.net_index)))
net_index_unique (x ∷ rows) l m f (Memᴰ.tail held) (Memᴰ.head e') same =
    let apart = some_of_absent (clashes x) rows f.0 l held in
    let index : l.net_index ≡ x.net_index = rw (← e') same in
    absurd (ground (arith, ==_refl (pos_part l.net_index + neg_part l.net_index)))
net_index_unique (x ∷ rows) l m f (Memᴰ.tail held) (Memᴰ.tail other) same =
    net_index_unique rows l m f.1 held other same
