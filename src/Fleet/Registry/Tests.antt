-- ===== src/Fleet/Registry/Tests.antt =====
-- A cordoned host that registers again, and the live hosts at an instant.
use runtime_service.Base.{pos, [], ◌∷◌, All, some}
use runtime_service.Errors.{ok}
use runtime_service.Fleet.Host.{cordoned}
use runtime_service.Fleet.Samples.{first_host, second_host}
use runtime_service.Fleet.Registry.{Stores, register_host}
use runtime_service.Fleet.Registry.Rows.{IsRegistered, register_host-IsRegistered}

abbrev stores : Stores
stores = record {
  find_by_id = λ id. ok (record first_host { status = cordoned });
  update = λ h. ok tt;
  create = λ h. ok tt;
  list_by_status = λ s. ok (first_host ∷ second_host ∷ []);
  ensure_host_ordinal = some (λ id. ok (pos 3));
}

register_host-IsRegistered_example :
    All
      (IsRegistered (ok (record first_host { status = cordoned })))
      (register_host stores (pos 60) 5 first_host).1
register_host-IsRegistered_example = register_host-IsRegistered stores (pos 60) 5 first_host
