-- ===== src/Shell/Tests.antt =====
-- A surface that is minimized, shown and covered: the theorems at work.
use webos_wayland.Base.{
  ℕ, ◌+◌, ◌≡◌, refl, ℤ, pos, negsuc, true, false, ◌&&◌, none, some, List, [], ◌∷◌, total, is_some,
}
use webos_wayland.Wayland.{Proxy}
use webos_wayland.Shell.{ShellHeaders, ShellContext}
use webos_wayland.Shell.Events.{WlArray, scan_array}
use webos_wayland.Shell.Setup.{context_init, attach, context_destroy, try_bind}
use webos_wayland.Shell.Exposed.{has_area, scan_array_lem}
use webos_wayland.Shell.Trace.{Event, state_changed, exposed, run, state_shows, area_shows}
use webos_wayland.Shell.Visibility.{
  Diary, note_visibility, note_close, newest, Alternates, run-told,
}
use webos_wayland.Shell.Lifetime.{
  bind, attach_to, call, Reach, here, next, made, is_proxy, given_up, attach_lem,
  context_destroy-releases_shell,
}

abbrev sh : ShellHeaders
sh = record {
  state_default = 0;
  state_minimized = 1;
  state_fullscreen = 3;
  key_default = 1;
  key_back = 2;
  key_exit = 8;
}

abbrev proxy : ℕ → Proxy
proxy id = record { id = id; version = 2 }

-- An empty rectangle, then one with an area, the end mark and a rest.
abbrev rectangles : List ℤ
rectangles = pos 0 ∷ pos 0 ∷ pos 0 ∷ pos 9 ∷ pos 4 ∷ pos 4 ∷ pos 20 ∷ pos 10 ∷ negsuc 0 ∷ pos 7 ∷ []

abbrev rectangle_array : WlArray
rectangle_array = record { size = 40; values = some rectangles }

scan_array_lem_example : scan_array (some rectangle_array) ≡ some (has_area rectangles)
scan_array_lem_example = scan_array_lem rectangle_array rectangles (refl, refl)

abbrev events : List Event
events = state_changed 1 ∷ exposed rectangles ∷ state_changed 3 ∷ exposed [] ∷ []

run-told_example :
    (c : ShellContext Diary) × (run sh
        (context_init sh
          (record { told = []; asked_to_close = false })
          (some note_visibility)
          (some note_close))
        events
      ≡ some c)
    × (newest c.client.told ≡ (state_shows sh true events && area_shows true events))
    × Alternates c.client.told
run-told_example = run-told sh events

abbrev start : ShellContext ℕ
unfolding context_init
start = context_init sh 0 none none

abbrev bound : ShellContext ℕ
unfolding call
bound = call sh (bind 4 "wl_webos_shell" 1 (λ v. some (proxy 1))) start

attach_lem_example :
    let (took, c') = attach sh "org.example.app" (some (proxy 2)) true bound in
    (took ≡ is_some c'.surface)
    × (took ≡ (is_some bound.global && (is_some (some (proxy 2)) && true)))
unfolding start context_init call try_bind
attach_lem_example = attach_lem sh "org.example.app" (some (proxy 2)) true bound refl

abbrev attached : ShellContext ℕ
attached = call sh (attach_to "org.example.app" (some (proxy 2)) true) bound

-- A second surface over the first, which is lost.
abbrev attached_again : ShellContext ℕ
attached_again = call sh (attach_to "org.example.app" (some (proxy 3)) true) attached

attached_again-Reach : Reach sh (context_init sh 0 none none) attached_again (proxy 2 ∷ [])
unfolding start context_init call try_bind attach
attached_again-Reach = next (attach_to "org.example.app" (some (proxy 3)) true) (
    next (attach_to "org.example.app" (some (proxy 2)) true)
      (next (bind 4 "wl_webos_shell" 1 (λ v. some (proxy 1))) here))

context_destroy-releases_shell_example :
    ((context_destroy attached_again).global ≡ none)
    × ((context_destroy attached_again).surface ≡ none)
    × (total (made 2) (context_destroy attached_again).sent
        ≡ total (given_up 2) (context_destroy attached_again).sent
          + total (is_proxy 2) (proxy 2 ∷ []))
context_destroy-releases_shell_example =
    context_destroy-releases_shell sh 0 none none attached_again-Reach 2
