-- ===== src/Launcher/Environment.antt =====
-- The environment that the launcher hands on.
use webos_wayland.Base.{◌≡◌, refl, Option, none, some, String, if◌then◌else◌, is_some, not}
use webos_wayland.Launcher.{Environment, set_environment}

kept :
    (old : Option String)
    → (if not (is_some old) then some "1" else old) ≡ some (elim old [ none ↦ "1" | some v ↦ v ])
kept none = refl
kept (some v) = refl

-- The client runs without LD_PRELOAD, under the launcher's id and the launcher's display, and with the
-- two settings of the stress client that the launcher was given, or 1 where it was given none;
-- STRESS_RESOLUTION, which `main` does not name, is as it was.
pub set_environment_lem :
    (app_id : String) (env : Environment)
    → (set_environment app_id env "LD_PRELOAD" ≡ none)
      × (set_environment app_id env "APP_ID" ≡ some app_id)
      × (set_environment app_id env "WAYLAND_DISPLAY" ≡ some "wayland-0")
      × (set_environment app_id env "STRESS_FORCE_4K"
          ≡ some (elim (env "STRESS_FORCE_4K") [ none ↦ "1" | some v ↦ v ]))
      × (set_environment app_id env "STRESS_SWAP_INTERVAL"
          ≡ some (elim (env "STRESS_SWAP_INTERVAL") [ none ↦ "1" | some v ↦ v ]))
      × (set_environment app_id env "STRESS_RESOLUTION" ≡ env "STRESS_RESOLUTION")
unfolding set_environment
set_environment_lem app_id env =
    (refl, refl, refl, kept (env "STRESS_FORCE_4K"), kept (env "STRESS_SWAP_INTERVAL"), refl)
