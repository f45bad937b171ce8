-- ===== src/Launcher/Tests.antt =====
-- The launcher in /app/bin: the theorems at work.
use webos_wayland.Base.{ℕ, ◌≡◌, Bool, none, some, List, [], ◌∷◌, ◌++◌, length, ◌==◌, arith}
use webos_wayland.Launcher.{
  slash, find_bin_dir, launch, exited, Environment, set_environment, before_last,
}
use webos_wayland.Launcher.Choice.{IsChoice, candidates, launch-IsChoice, launch-too_long}
use webos_wayland.Launcher.Environment.{set_environment_lem}

-- "/bin" and "native"
abbrev bin : List ℕ
bin = 47 ∷ 98 ∷ 105 ∷ 110 ∷ []

abbrev native : List ℕ
native = 110 ∷ 97 ∷ 116 ∷ 105 ∷ 118 ∷ 101 ∷ []

-- only a path of sixteen bytes runs: that of wayland_egl
abbrev runs_egl : List ℕ → Bool
runs_egl path = length path == 16

launch-IsChoice_example :
    IsChoice runs_egl
      (candidates "org.webosbrew.wayland" bin)
      (launch 4096 "org.webosbrew.wayland" (some (bin ++ (slash ∷ native))) runs_egl)
launch-IsChoice_example =
    launch-IsChoice 4096 "org.webosbrew.wayland" bin native runs_egl
      (
        ground arith,
        (ground arith, (ground arith, (ground arith, (ground arith, (ground arith, _))))),
      )
      (omega arith) (omega arith)

launch-too_long_example :
    launch 20 "org.webosbrew.wayland" (some (bin ++ (slash ∷ native))) runs_egl ≡ exited 126
unfolding find_bin_dir before_last
launch-too_long_example =
    launch-too_long 20 "org.webosbrew.wayland" (some (bin ++ (slash ∷ native))) runs_egl
      (omega arith)

abbrev given : Environment
given = λ name. some "0"

set_environment_lem_example :
    (set_environment "org.webosbrew.wayland" given "LD_PRELOAD" ≡ none)
    × (set_environment "org.webosbrew.wayland" given "APP_ID" ≡ some "org.webosbrew.wayland")
    × (set_environment "org.webosbrew.wayland" given "WAYLAND_DISPLAY" ≡ some "wayland-0")
    × (set_environment "org.webosbrew.wayland" given "STRESS_FORCE_4K"
        ≡ some (elim (given "STRESS_FORCE_4K") [ none ↦ "1" | some v ↦ v ]))
    × (set_environment "org.webosbrew.wayland" given "STRESS_SWAP_INTERVAL"
        ≡ some (elim (given "STRESS_SWAP_INTERVAL") [ none ↦ "1" | some v ↦ v ]))
    × (set_environment "org.webosbrew.wayland" given "STRESS_RESOLUTION"
        ≡ given "STRESS_RESOLUTION")
set_environment_lem_example = set_environment_lem "org.webosbrew.wayland" given
