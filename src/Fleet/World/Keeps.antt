-- ===== src/Fleet/World/Keeps.antt =====
-- Invariants of the world, one rule for each way to build an action.
use runtime_service.Base.{
  ℕ, ◌≡◌, refl, ap, Bool, true, false, if◌then◌else◌, List, [], ◌∷◌, All, Bool-cases, ◌⊎◌, inl, inr,
}
use runtime_service.Errors.{Err, Result, Result-cases, ok, err}
use runtime_service.Fleet.Replica.{FleetApp, Replica}
use runtime_service.Fleet.Volume.{Volume}
use runtime_service.Fleet.World.{
  Outside, World, Tables, Event, M, ◌>>=◌, ◌>>◌, lift, pure, attempt, note, ask, query, each, call,
  created, updated, deleted, app_updated, app_deleted, volume_updated, volume_deleted, find_app,
  list_apps, update_app, delete_app, find_replica, list_replicas, list_by_host, create_replica,
  update_replica, delete_replica, list_volumes, update_volume, delete_volume,
}

-- The action keeps the predicate, whether it succeeds or fails.
pub record Keeps {A : Type 0} (P : World → Type 0) (m : M A) : Type 0 where
  pub at : (w : World) → P w → P (m w).1

-- An action that succeeds has parts that succeed.
pub bind_ok :
    {A B : Type 0} (m : M A) (f : A → M B) (w : World) (b : B)
    → ((m >>= f) w).0 ≡ ok b
    → (a : A) × ((m w).0 ≡ ok a) × ((f a (m w).1).0 ≡ ok b)
bind_ok m f w b h = elim (Result-cases (m w).0) [
  | inl (a, e) ↦ (a, e, rw (e, ◌>>=◌) at h)
  | inr (e, failed) ↦ let wrong = (rw (failed, ◌>>=◌) at h) in cc
]

pub bind_eq :
    {A B : Type 0} (m : M A) (f : A → M B) (w : World) (a : A)
    → (m w).0 ≡ ok a
    → (m >>= f) w ≡ f a (m w).1
bind_eq m f w a h = rw (h, ◌>>=◌) refl

pub bind_state :
    {A B : Type 0} (m : M A) (f : A → M B) (w : World) (a : A)
    → (m w).0 ≡ ok a
    → ((m >>= f) w).1 ≡ (f a (m w).1).1
bind_state m f w a h = ap (λ r. r.1) (bind_eq m f w a h)

pub bind_failed :
    {A B : Type 0} (m : M A) (f : A → M B) (w : World) (e : Err)
    → (m w).0 ≡ err e
    → ((m >>= f) w).1 ≡ (m w).1
bind_failed m f w e h = rw (h, ◌>>=◌) refl

pub bind_err :
    {A B : Type 0} (m : M A) (f : A → M B) (w : World) (e : Err)
    → (m w).0 ≡ err e
    → (m >>= f) w ≡ (err e, (m w).1)
bind_err m f w e h = rw (h, ◌>>=◌) refl

pub if_ok :
    {A : Type 0} (b : Bool) (m n : M A) (w : World) (a : A)
    → ((if b then m else n) w).0 ≡ ok a
    → ((b ≡ true) × ((m w).0 ≡ ok a)) ⊎ ((b ≡ false) × ((n w).0 ≡ ok a))
if_ok true m n w a h = inl (refl, h)
if_ok false m n w a h = inr (refl, h)

module _ {P : World → Type 0} where
  pub Keeps-pure : {Value : Type 0} (value : Value) → Keeps P (pure value)
  Keeps-pure value = record { at = λ w before. before }

  pub Keeps-lift : {Value : Type 0} (answer : Result Value) → Keeps P (lift answer)
  Keeps-lift answer = record { at = λ w before. before }

  pub Keeps-attempt : {A : Type 0} (m : M A) → Keeps P m → Keeps P (attempt m)
  Keeps-attempt m k = record { at = k.at }

  -- Each branch may use the outcome of the test.
  pub Keeps-if :
      {A : Type 0} (test : Bool) (done other : M A)
      → (test ≡ true → Keeps P done)
      → (test ≡ false → Keeps P other)
      → Keeps P (if test then done else other)
  Keeps-if false done other when unless = unless refl
  Keeps-if true done other when unless = when refl

  -- What follows may use what the first action answers, and the world it answers from.
  pub Keeps-bind_at :
      {A B : Type 0} (m : M A) (f : A → M B)
      → Keeps P m
      → ((a : A) (w : World) → P w → (m w).0 ≡ ok a → Keeps P (f a))
      → Keeps P (m >>= f)
  Keeps-bind_at m f km kf = record {
    at = λ w h. elim (Result-cases (m w).0) [
      | inl (a, e) ↦ rw (e, ◌>>=◌) ((kf a w h e).at (m w).1 (km.at w h))
      | inr (e, failed) ↦ rw (failed, ◌>>=◌) (km.at w h)
    ];
  }

  pub Keeps-bind :
      {A B : Type 0} (first : M A) (next : A → M B)
      → Keeps P first
      → ((value : A) → Keeps P (next value))
      → Keeps P (first >>= next)
  Keeps-bind first next kept later =
      Keeps-bind_at first next kept (λ value w before answered. later value)

  pub Keeps-bind_lift :
      {A B : Type 0} (answer : Result A) (next : A → M B)
      → ((value : A) → answer ≡ ok value → Keeps P (next value))
      → Keeps P (lift answer >>= next)
  Keeps-bind_lift (err refusal) next later = record { at = λ w before. before }
  Keeps-bind_lift (ok value) next later = later value refl

  pub Keeps-each :
      {A : Type 0} (Q : A → Type 0) (f : A → M (Unit {0})) (xs : List A)
      → ((x : A) → Q x → Keeps P (f x))
      → All Q xs
      → Keeps P (each f xs)
  unfolding each
  Keeps-each Q f [] kf h = Keeps-pure tt
  Keeps-each Q f (x ∷ xs) kf h = Keeps-bind (f x) _ (kf x h.0) (λ _. Keeps-each Q f xs kf h.1)

pub ruleset keeps_rules = (Keeps-pure, Keeps-lift, Keeps-attempt, Keeps-if, Keeps-bind)

-- Everything that this process did satisfies the predicate.
abbrev pub Logged : (Event → Type 0) → World → Type 0
Logged E w = All E w.log

module _ {E : Event → Type 0} (out : Outside) where
  pub call-Logged : {A : Type 0} (op : Tables → Result A × Tables) → Keeps (Logged E) (call out op)
  unfolding call
  call-Logged op = record {
    at = λ w h. elim (Bool-cases (out.fails w.calls)) [ inl e ↦ rw e h | inr e ↦ rw e h ];
  }

  pub find_app-Logged : (id : ℕ) → Keeps (Logged E) (find_app out id)
  unfolding find_app
  find_app-Logged id = call-Logged _

  pub list_apps-Logged : Keeps (Logged E) (list_apps out)
  unfolding list_apps
  list_apps-Logged = call-Logged _

  pub find_replica-Logged : (id : ℕ) → Keeps (Logged E) (find_replica out id)
  unfolding find_replica
  find_replica-Logged id = call-Logged _

  pub list_replicas-Logged : (app : ℕ) → Keeps (Logged E) (list_replicas out app)
  unfolding list_replicas
  list_replicas-Logged app = call-Logged _

  pub list_by_host-Logged : (host : ℕ) → Keeps (Logged E) (list_by_host out host)
  unfolding list_by_host
  list_by_host-Logged host = call-Logged _

  pub list_volumes-Logged : (app : ℕ) → Keeps (Logged E) (list_volumes out app)
  unfolding list_volumes
  list_volumes-Logged app = call-Logged _

  -- A write after its note.
  noted :
      (e : Event) (op : Tables → Result (Unit {0}) × Tables)
      → E e
      → Keeps (Logged E) (note e >> call out op)
  noted e op allowed =
      Keeps-bind (note e) _ (record { at = λ w h. (allowed, h) }) (λ _. call-Logged op)

  pub update_app-Logged : (a : FleetApp) → E (app_updated a) → Keeps (Logged E) (update_app out a)
  unfolding update_app
  update_app-Logged a allowed = noted _ _ allowed

  pub delete_app-Logged : (id : ℕ) → E (app_deleted id) → Keeps (Logged E) (delete_app out id)
  unfolding delete_app
  delete_app-Logged id allowed = noted _ _ allowed

  pub create_replica-Logged :
      (r : Replica) → E (created r) → Keeps (Logged E) (create_replica out r)
  unfolding create_replica
  create_replica-Logged r allowed = noted _ _ allowed

  pub update_replica-Logged :
      (r : Replica) → E (updated r) → Keeps (Logged E) (update_replica out r)
  unfolding update_replica
  update_replica-Logged r allowed = noted _ _ allowed

  pub delete_replica-Logged :
      (r : Replica) → E (deleted r) → Keeps (Logged E) (delete_replica out r)
  unfolding delete_replica
  delete_replica-Logged r allowed = noted _ _ allowed

  pub update_volume-Logged :
      (v : Volume) → E (volume_updated v) → Keeps (Logged E) (update_volume out v)
  unfolding update_volume
  update_volume-Logged v allowed = noted _ _ allowed

  pub delete_volume-Logged :
      (v : Volume) → E (volume_deleted v) → Keeps (Logged E) (delete_volume out v)
  unfolding delete_volume
  delete_volume-Logged v allowed = noted _ _ allowed

-- A call of the database does nothing that the log holds.
pub call-log :
    (out : Outside) {A : Type 0} (op : Tables → Result A × Tables) (w : World)
    → (call out op w).1.log ≡ w.log
unfolding call
call-log out op w = elim (Bool-cases (out.fails w.calls)) [ inl e ↦ rw e refl | inr e ↦ rw e refl ]

pub find_app-log : (out : Outside) (id : ℕ) (w : World) → (find_app out id w).1.log ≡ w.log
unfolding find_app
find_app-log out id w = call-log out _ w

pub create_replica-log :
    (out : Outside) (r : Replica) (w : World) → (create_replica out r w).1.log ≡ created r ∷ w.log
unfolding create_replica
create_replica-log out r w = call-log out _ (record w { log = created r ∷ w.log })

pub note-Logged : {E : Event → Type 0} (e : Event) → E e → Keeps (Logged E) (note e)
note-Logged e allowed = record { at = λ w h. (allowed, h) }

pub ask-Logged : {E : Event → Type 0} {A : Type 0} (f : ℕ → A) → Keeps (Logged E) (ask f)
ask-Logged f = record { at = λ w h. h }

pub query-Logged : {E : Event → Type 0} {A : Type 0} (f : ℕ → Result A) → Keeps (Logged E) (query f)
query-Logged f = record { at = λ w h. h }
