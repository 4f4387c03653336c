-- ===== src/Fleet/Boot/Fence.antt =====
-- The boot acts on replicas that are placed on this host.
use runtime_service.Base.{ℕ, ◌≡◌, List, [], ◌∷◌, Option, none, some, Text}
use runtime_service.Errors.{Err, Result, ok, err}
use runtime_service.Fleet.Replica.{FleetApp, Replica, booting}
use runtime_service.Fleet.Volume.{Volume}
use runtime_service.Fleet.World.{
  Outside, Settings, HostSecret, BootInput, Event, booted, M, ask, query, update_replica,
  find_replica,
}
use runtime_service.Fleet.World.Keeps
use runtime_service.Fleet.World.Keeps.{
  Keeps, Logged, bind_ok, keeps_rules, Keeps-pure, Keeps-lift, Keeps-attempt, Keeps-bind,
  Keeps-bind_at, Keeps-bind_lift, Keeps-each,
}
use runtime_service.Fleet.World.Fence.{Permits, Tears}
use runtime_service.Fleet.Boot.Cleared.{
  HasSecrets, IsFree, IsCleared, boot_secrets_sound, data_volume_sound, or_mark_dead_sound,
}
use runtime_service.Fleet.VolumeManager.Fence.{attach_to-Logged, primary_volume-Logged}
use runtime_service.Fleet.Teardown.Fence.{reclaim-Logged, tear_down-Logged, require_owned_sound}
use runtime_service.Fleet.Boot
use runtime_service.Fleet.Teardown

abbrev pub Boots : Outside → Settings → (Event → Type 0) → Type 0
Boots out cfg E =
    (app : FleetApp) (r : Replica) (vol : Option Volume) (input : BootInput)
    → r.host_id ≡ some cfg.self_host
    → IsCleared out cfg app vol input
    → E (booted app r vol input)

module _ (out : Outside) (cfg : Settings) {E : Event → Type 0} (p : Permits cfg.self_host E)
    (t : Tears cfg.self_host E) (b : Boots out cfg E) where
  mark_dead-Logged :
      {A : Type 0} (r : Replica) (cause : Err)
      → r.host_id ≡ some cfg.self_host
      → Keeps (Logged E) (Boot.mark_dead out cfg {A = A} r cause)
  unfolding Boot.mark_dead
  mark_dead-Logged r cause h = search (
    keeps_rules,
    Keeps.ask-Logged,
    Keeps.update_replica-Logged,
    p.update,
    reclaim-Logged out cfg p,
  )

  dead_on_error-Logged :
      {A : Type 0} (r : Replica) (result : Result A)
      → r.host_id ≡ some cfg.self_host
      → Keeps (Logged E) (Boot.dead_on_error out cfg r result)
  unfolding Boot.dead_on_error
  dead_on_error-Logged r (ok a) h = Keeps-pure a
  dead_on_error-Logged r (err cause) h = mark_dead-Logged r cause h

  or_mark_dead-Logged :
      {A : Type 0} (r : Replica) (m : M A)
      → r.host_id ≡ some cfg.self_host
      → Keeps (Logged E) m
      → Keeps (Logged E) (Boot.or_mark_dead out cfg r m)
  unfolding Boot.or_mark_dead
  or_mark_dead-Logged r m h k = search (keeps_rules, dead_on_error-Logged)

  resolve_refs-Logged :
      (refs : List Text) (org token : Text)
      → Keeps (Logged E) (Boot.resolve_refs out cfg refs org token)
  unfolding Boot.resolve_refs
  resolve_refs-Logged [] org token = Keeps-pure []
  resolve_refs-Logged (ref ∷ refs) org token =
      Keeps-bind (query (λ n. out.resolve n ref org token)) _ (Keeps.query-Logged _) λ val.
        Keeps-bind (Boot.resolve_refs out cfg refs org token) _ (resolve_refs-Logged refs org token)
          λ rest. Keeps-pure _

  of_refs :
      (refs : List Text) (app : FleetApp) → Keeps (Logged E) (Boot.secrets_of out cfg refs app)
  unfolding Boot.secrets_of Boot.resolve_boot_secrets
  of_refs [] app = Keeps-pure _
  of_refs (ref ∷ refs) app = search (keeps_rules, resolve_refs-Logged)

  boot_secrets-Logged : (app : FleetApp) → Keeps (Logged E) (Boot.boot_secrets out cfg app)
  unfolding Boot.boot_secrets
  boot_secrets-Logged app = of_refs app.secret_refs app

  claim_volume-Logged :
      (app : FleetApp) (r : Replica) (vol : Option Volume)
      → Keeps (Logged E) (Boot.claim_volume out cfg app r vol)
  unfolding Boot.claim_volume
  claim_volume-Logged app r none = Keeps-pure tt
  claim_volume-Logged app r (some v) = search (keeps_rules, attach_to-Logged out cfg p)

  after_persist-Logged :
      (app : FleetApp) (r : Replica) (vol : Option Volume) (written : Result (Unit {0}))
      → r.host_id ≡ some cfg.self_host
      → Keeps (Logged E) (Boot.after_persist out cfg app r vol written)
  unfolding Boot.after_persist Boot.unwind
  after_persist-Logged app r vol (ok _) h = claim_volume-Logged app r vol
  after_persist-Logged app r vol (err e) h =
      search (keeps_rules, tear_down-Logged out cfg p t, reclaim-Logged out cfg p)

  persist_resident-Logged :
      (app : FleetApp) (r : Replica) (vol : Option Volume)
      → r.host_id ≡ some cfg.self_host
      → Keeps (Logged E) (Boot.persist_resident out cfg app r vol)
  unfolding Boot.persist_resident
  persist_resident-Logged app r vol h =
      search (keeps_rules, Keeps.update_replica-Logged, p.update, after_persist-Logged)

  boot_resident-Logged :
      (app : FleetApp) (r : Replica) (vol : Option Volume) (input : BootInput)
      → r.host_id ≡ some cfg.self_host
      → IsCleared out cfg app vol input
      → Keeps (Logged E) (Boot.boot_resident out cfg app r vol input)
  unfolding Boot.boot_resident
  boot_resident-Logged app r vol input h c =
      search (keeps_rules, Keeps.note-Logged, b, Keeps.query-Logged)

  boot_input-IsCleared :
      (app : FleetApp) (r : Replica) (secrets : List HostSecret) (nonce : Text)
      (vol : Option Volume) (rootfs : Text)
      → HasSecrets out cfg app secrets
      → IsFree vol
      → IsCleared out cfg app vol (Boot.boot_input out cfg app r secrets nonce vol rootfs)
  unfolding Boot.boot_input
  boot_input-IsCleared app r secrets nonce vol rootfs h k = (h, k)

  launch-Logged :
      (app : FleetApp) (r : Replica) (secrets : List HostSecret) (nonce : Text)
      (vol : Option Volume)
      → r.host_id ≡ some cfg.self_host
      → HasSecrets out cfg app secrets
      → IsFree vol
      → Keeps (Logged E) (Boot.launch out cfg app r secrets nonce vol)
  unfolding Boot.launch Boot.made_resident
  launch-Logged app r secrets nonce vol h c k =
      search
        (
          keeps_rules, Keeps.ask-Logged, Keeps.query-Logged, or_mark_dead-Logged,
          boot_resident-Logged, boot_input-IsCleared, persist_resident-Logged,
        )
        depth 9 fits 3000

  stand_off-Logged : (vol : Option Volume) → Keeps (Logged E) (Boot.stand_off out cfg vol)
  unfolding Boot.stand_off
  stand_off-Logged none = Keeps-pure none
  stand_off-Logged (some v) = search keeps_rules

  data_volume-Logged : (app : ℕ) → Keeps (Logged E) (Boot.data_volume out cfg app)
  unfolding Boot.data_volume
  data_volume-Logged app = search (keeps_rules, primary_volume-Logged out cfg p, stand_off-Logged)

  nonce_for-Logged : (secrets : List HostSecret) → Keeps (Logged E) (Boot.nonce_for out cfg secrets)
  unfolding Boot.nonce_for
  nonce_for-Logged [] = Keeps-pure []
  nonce_for-Logged (s ∷ ss) = search (keeps_rules, Keeps.query-Logged)

  boot_app-Logged :
      (app : FleetApp) (r : Replica)
      → r.host_id ≡ some cfg.self_host
      → Keeps (Logged E) (Boot.boot_app out cfg app r)
  unfolding Boot.boot_app
  boot_app-Logged app found h = Keeps-bind (ask out.now) _ (Keeps.ask-Logged out.now) λ now.
      let r : Replica = record found { state = booting; message = []; updated_at = now } in
      Keeps-bind (update_replica out r) _ (Keeps.update_replica-Logged out r (p.update r h)) λ done.
        Keeps-bind_at (Boot.or_mark_dead out cfg r (Boot.boot_secrets out cfg app)) _
          (or_mark_dead-Logged r _ h (boot_secrets-Logged app))
          λ secrets w k read.
            let c =
              boot_secrets_sound out cfg app w secrets
                (or_mark_dead_sound out cfg r _ w secrets read) in
            Keeps-bind (Boot.or_mark_dead out cfg r (Boot.nonce_for out cfg secrets)) _
              (or_mark_dead-Logged r _ h (nonce_for-Logged secrets))
              λ nonce.
                Keeps-bind_at (Boot.or_mark_dead out cfg r (Boot.data_volume out cfg app.id))
                  (Boot.launch out cfg app r secrets nonce)
                  (or_mark_dead-Logged r _ h (data_volume-Logged app.id))
                  λ vol w' k' free. launch-Logged app r secrets nonce vol h c (
                    data_volume_sound out cfg app.id w' vol
                      (or_mark_dead_sound out cfg r _ w' vol free))

  boot_owned-Logged :
      (r : Replica) → r.host_id ≡ some cfg.self_host → Keeps (Logged E) (Boot.boot_owned out cfg r)
  unfolding Boot.boot_owned
  boot_owned-Logged r h = search (keeps_rules, Keeps.find_app-Logged, boot_app-Logged)

  pub boot_replica-Logged : (id : ℕ) → Keeps (Logged E) (Boot.boot_replica out cfg id)
  unfolding Boot.boot_replica
  boot_replica-Logged id =
      Keeps-bind (find_replica out id) _ (Keeps.find_replica-Logged out id) λ r.
        Keeps-bind_lift (Teardown.require_owned_replica out cfg r) _
          λ done owned. boot_owned-Logged r (require_owned_sound out cfg r done owned)
