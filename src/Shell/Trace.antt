-- ===== src/Shell/Trace.antt =====
-- The listener of the shell surface as one machine, and what a sequence of its events says.
use webos_wayland.Base.{ℕ, ◌*◌, ℤ, Bool, not, Option, none, some, List, [], ◌∷◌, ◌==◌, length}
use webos_wayland.Shell.{ShellHeaders, ShellContext}
use webos_wayland.Shell.Events.{handle_state_changed, handle_exposed, handle_close, WlArray}
use webos_wayland.Shell.Exposed.{has_area}

-- What the compositor sends: a state, the visible rectangles (an array of whole integers), a
-- request to close.
pub data Event : Type 0 where
  state_changed : ℕ → Event
  exposed : List ℤ → Event
  close : Event

-- The array that libwayland makes of the rectangles.
abbrev pub as_array : List ℤ → Option WlArray
as_array values = some (record { size = length values * 4; values = some values })

module _ {D : Type 0} where
  unfoldable pub handle : ShellHeaders → Event → ShellContext D → Option (ShellContext D)
  handle sh (state_changed state) c = some (handle_state_changed sh state c)
  handle sh (exposed values) c = handle_exposed (as_array values) c
  handle sh close c = some (handle_close c)

  -- A fault ends the run.
  unfoldable pub run : ShellHeaders → ShellContext D → List Event → Option (ShellContext D)
  run sh c [] = some c
  run sh c (e ∷ es) = elim (handle sh e c) [ none ↦ none | some c' ↦ run sh c' es ]

-- Whether the last state is one in which the surface can be seen.
unfoldable pub state_shows : ShellHeaders → Bool → List Event → Bool
state_shows sh now [] = now
state_shows sh now (state_changed state ∷ es) =
    state_shows sh (not (state == sh.state_minimized)) es
state_shows sh now (exposed values ∷ es) = state_shows sh now es
state_shows sh now (close ∷ es) = state_shows sh now es

-- Whether the last rectangles show some of the surface; before the first ones all of it shows.
unfoldable pub area_shows : Bool → List Event → Bool
area_shows now [] = now
area_shows now (state_changed state ∷ es) = area_shows now es
area_shows now (exposed values ∷ es) = area_shows (has_area values) es
area_shows now (close ∷ es) = area_shows now es
