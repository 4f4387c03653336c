-- ===== src/Fleet/Availability/Tests.antt =====
-- The placement invariant on two hosts of one region.
use runtime_service.Base.{◌≡◌, ◌↔◌, [], ◌∷◌}
use runtime_service.Errors.{ok}
use runtime_service.Fleet.Samples.{first_host, second_host}
use runtime_service.Fleet.Availability.{require_ha_placement}
use runtime_service.Fleet.Availability.Apart.{HasApartPair, require_ha_placement_iff}

require_ha_placement_iff_example :
    (require_ha_placement (first_host ∷ second_host ∷ []) ≡ ok tt)
    ↔ HasApartPair (first_host ∷ second_host ∷ [])
require_ha_placement_iff_example = require_ha_placement_iff (first_host ∷ second_host ∷ [])
