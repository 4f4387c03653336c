-- ===== src/Fleet/World/Succeeds.antt =====
-- What holds of the log after an action that succeeds.
use runtime_service.Base.{◌≡◌, Bool, true, false, if◌then◌else◌}
use runtime_service.Errors.{ok}
use runtime_service.Fleet.World.{World, M, ◌>>=◌}
use runtime_service.Fleet.World.Keeps.{Keeps, bind_ok, bind_state}

-- The action keeps the predicate when it succeeds.
pub record Succeeds {A : Type 0} (P : World → Type 0) (m : M A) : Type 0 where
  pub at : (w : World) (a : A) → P w → (m w).0 ≡ ok a → P (m w).1

module _ {P : World → Type 0} where
  pub Succeeds-Keeps : {A : Type 0} (m : M A) → Keeps P m → Succeeds P m
  Succeeds-Keeps m k = record { at = λ w a h e. k.at w h }

  pub Succeeds-if :
      {A : Type 0} (test : Bool) (done other : M A)
      → Succeeds P done
      → Succeeds P other
      → Succeeds P (if test then done else other)
  Succeeds-if false done other when unless = unless
  Succeeds-if true done other when unless = when

  pub Succeeds-bind :
      {A B : Type 0} (m : M A) (f : A → M B)
      → Succeeds P m
      → ((a : A) → Succeeds P (f a))
      → Succeeds P (m >>= f)
  Succeeds-bind m f sm sf = record {
    at = λ w b h e.
        let (a, first, later) = bind_ok m f w b e in
        rw (bind_state m f w a first) ((sf a).at (m w).1 b (sm.at w a h first) later);
  }
