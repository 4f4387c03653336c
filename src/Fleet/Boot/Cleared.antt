-- ===== src/Fleet/Boot/Cleared.antt =====
-- What is known when a boot reaches the driver.
use runtime_service.Base.{
  ℕ, ◌≡◌, refl, subst, ◌⊎◌, inl, inr, not, if◌then◌else◌, false, ℤ, List, [], ◌∷◌, Option, none,
  some, Text, Bool-cases,
}
use runtime_service.Errors.{
  Err, boot, secret_resolver_unavailable, secret_owner_org_missing, Result, ok, err,
}
use runtime_service.Fleet.Replica.{FleetApp, Replica, dead}
use runtime_service.Fleet.Volume.{Volume}
use runtime_service.Fleet.World.{
  Outside, World, Settings, HostSecret, BootInput, M, ◌>>=◌, ◌>>◌, lift, pure, ask, query,
  update_replica, attempt,
}
use runtime_service.Fleet.World.Keeps.{bind_ok, if_ok}
use runtime_service.Fleet.VolumeManager.{primary_volume}
use runtime_service.Fleet.Boot
use runtime_service.Fleet.Teardown

-- One secret for each ref, in order: the field name of the ref, and a value that the resolver answered for it.
abbrev pub Resolved : Outside → Text → Text → List Text → List HostSecret → Type 0
Resolved out org token [] [] = Unit
Resolved out org token [] (s ∷ ss) = ⊥
Resolved out org token (ref ∷ refs) [] = ⊥
Resolved out org token (ref ∷ refs) (s ∷ ss) =
    (s.name ≡ Boot.field_name ref)
    × ((n : ℕ) × (out.resolve n ref org token ≡ ok s.val))
    × Resolved out org token refs ss

-- The secrets of an app with refs are all resolved, for the app's owner and with its token.
abbrev pub HasSecrets : Outside → Settings → FleetApp → List HostSecret → Type 0
HasSecrets out cfg app secrets =
    (app.secret_refs ≡ [])
    ⊎ Resolved out app.owner_org (Boot.or_empty (cfg.token_of app.id)) app.secret_refs secrets

-- No restore owns the volume.
abbrev pub IsFree : Option Volume → Type 0
IsFree none = Unit
IsFree (some v) = Boot.is_restoring v.status ≡ false

-- What is known when the driver is asked to boot.
abbrev pub IsCleared : Outside → Settings → FleetApp → Option Volume → BootInput → Type 0
IsCleared out cfg app vol input = HasSecrets out cfg app input.secrets × IsFree vol

module _ (out : Outside) (cfg : Settings) where
  mark_dead_fails :
      {A : Type 0} (r : Replica) (cause : Err) (w : World) (a : A)
      → (Boot.mark_dead out cfg {A = A} r cause w).0 ≡ ok a
      → ⊥
  unfolding Boot.mark_dead
  mark_dead_fails {A} r cause w a h =
      let gone =
        λ (now : ℤ). record r { state = dead; message = out.error_text cause; updated_at = now } in
      let give_up : M A = Teardown.reclaim_staging_dir out cfg r.id >> lift (err cause) in
      let (now, asked, wrote) =
        bind_ok (ask out.now) (λ now. attempt (update_replica out (gone now)) >> give_up) w a h in
      let (done, wrote_it, ended) =
        bind_ok (attempt (update_replica out (gone now))) (λ _. give_up) (ask out.now w).1 a
          wrote in
      let (swept, cleared, failed) =
        bind_ok (Teardown.reclaim_staging_dir out cfg r.id) (λ _. lift {A = A} (err cause)) _ a
          ended in
      cc

  dead_on_error_sound :
      {A : Type 0} (r : Replica) (result : Result A) (w : World) (a : A)
      → (Boot.dead_on_error out cfg r result w).0 ≡ ok a
      → result ≡ ok a
  unfolding Boot.dead_on_error
  dead_on_error_sound r (ok b) w a h = h
  dead_on_error_sound r (err e) w a h = absurd (mark_dead_fails r e w a h)

  pub or_mark_dead_sound :
      {A : Type 0} (r : Replica) (m : M A) (w : World) (a : A)
      → (Boot.or_mark_dead out cfg r m w).0 ≡ ok a
      → (m w).0 ≡ ok a
  unfolding Boot.or_mark_dead
  or_mark_dead_sound r m w a h = dead_on_error_sound r (m w).0 (m w).1 a h

  resolve_refs_sound :
      (refs : List Text) (org token : Text) (w : World) (secrets : List HostSecret)
      → (Boot.resolve_refs out cfg refs org token w).0 ≡ ok secrets
      → Resolved out org token refs secrets
  unfolding Boot.resolve_refs
  resolve_refs_sound [] org token w secrets h =
      let empty : [] ≡ secrets = cc in subst (Resolved out org token []) empty tt
  resolve_refs_sound (ref ∷ refs) org token w secrets h =
      let ask_one = query (λ n. out.resolve n ref org token) in
      let with = λ (val : Text) (rest : List HostSecret).
        pure (record { name = Boot.field_name ref; val = val } ∷ rest) in
      let (val, first, later) =
        bind_ok ask_one (λ val. Boot.resolve_refs out cfg refs org token >>= with val) w secrets
          h in
      let (rest, found, same) =
        bind_ok (Boot.resolve_refs out cfg refs org token) (with val) (ask_one w).1 secrets later in
      let ih = resolve_refs_sound refs org token (ask_one w).1 rest found in
      let equal : record { name = Boot.field_name ref; val = val } ∷ rest ≡ secrets = cc in
      subst (Resolved out org token (ref ∷ refs)) equal (refl, (w.calls, first), ih)

  resolve_boot_secrets_sound :
      (refs : List Text) (org token : Text) (w : World) (secrets : List HostSecret)
      → (Boot.resolve_boot_secrets out cfg refs org token w).0 ≡ ok secrets
      → Resolved out org token refs secrets
  unfolding Boot.resolve_boot_secrets
  resolve_boot_secrets_sound refs org token w secrets h =
      let refused = lift (err (boot secret_resolver_unavailable)) in
      let nameless = lift (err (boot secret_owner_org_missing)) in
      let resolved = Boot.resolve_refs out cfg refs org token in
      elim (if_ok (not cfg.has_resolver) refused (if Boot.is_empty org then nameless else resolved)
        w secrets h) [
          | inl (hit, failed) ↦ cc
          | inr (wired, e) ↦ elim (if_ok (Boot.is_empty org) nameless resolved w secrets e) [
            | inl (hit, failed) ↦ cc
            | inr (named, found) ↦ resolve_refs_sound refs org token w secrets found
          ]
        ]

  secrets_of_sound :
      (refs : List Text) (app : FleetApp) (w : World) (secrets : List HostSecret)
      → (Boot.secrets_of out cfg refs app w).0 ≡ ok secrets
      → (refs ≡ []) ⊎ Resolved out app.owner_org (Boot.or_empty (cfg.token_of app.id)) refs secrets
  unfolding Boot.secrets_of
  secrets_of_sound [] app w secrets h = inl refl
  secrets_of_sound (ref ∷ refs) app w secrets h =
      inr (resolve_boot_secrets_sound (ref ∷ refs) _ _ w secrets h)

  pub boot_secrets_sound :
      (app : FleetApp) (w : World) (secrets : List HostSecret)
      → (Boot.boot_secrets out cfg app w).0 ≡ ok secrets
      → HasSecrets out cfg app secrets
  unfolding Boot.boot_secrets
  boot_secrets_sound app w secrets h = secrets_of_sound app.secret_refs app w secrets h

  stand_off_sound :
      (read vol : Option Volume) (w : World)
      → (Boot.stand_off out cfg read w).0 ≡ ok vol
      → IsFree vol
  unfolding Boot.stand_off
  stand_off_sound none vol w h = let same : none ≡ vol = cc in subst IsFree same tt
  stand_off_sound (some v) vol w h = elim (Bool-cases (Boot.is_restoring v.status)) [
    | inl e ↦ let failed = (rw e at h) in cc
    | inr e ↦
        let answer : ok (some v) ≡ ok vol = (rw e at h) in
        let same : some v ≡ vol = cc in subst IsFree same e
  ]

  pub data_volume_sound :
      (app : ℕ) (w : World) (vol : Option Volume)
      → (Boot.data_volume out cfg app w).0 ≡ ok vol
      → IsFree vol
  unfolding Boot.data_volume
  data_volume_sound app w vol h =
      elim (if_ok cfg.has_volumes (primary_volume out cfg app >>= Boot.stand_off out cfg)
        (pure none) w vol h) [
          | inl (wired, e) ↦
              let (read, first, later) =
                bind_ok (primary_volume out cfg app) (Boot.stand_off out cfg) w vol e in
              stand_off_sound read vol _ later
          | inr (bare, e) ↦ let same : none ≡ vol = cc in subst IsFree same tt
        ]
