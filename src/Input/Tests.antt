-- ===== src/Input/Tests.antt =====
-- One pointer that comes, goes over the surface and presses: the theorems at work.
use webos_wayland.Base.{
  ℕ, pos, ◌≡◌, ◌≤◌, ◌+◌, refl, true, false, none, some, [], ◌∷◌, ◌++◌, ◌↔◌, total, All, take, set,
  get_elem?, ltb, arith, u32, if◌then◌else◌, leb,
}
use webos_wayland.Wayland.{Headers, Proxy}
use webos_wayland.Input.{Callbacks, InputSeat, Context, bind_seat, release_seat, destroy_seat}
use webos_wayland.Input.Events.{
  recent_duplicate, pointer_enter, has_pointer, has_keyboard, seat_capabilities, update_pointer,
  update_keyboard, attach_pointer, attach_keyboard, keyboard_key, pointer_button, keyboard_enter,
}
use webos_wayland.Input.Registry.{
  find_slot, is_free, context_init, fill_slot, bind_slot, try_bind, global_remove, context_destroy,
  blank,
}
use webos_wayland.Input.Invariant.{IsValid, pointer_focused, keyboard_focused}
use webos_wayland.Input.Trace.{
  Event, enter, focus, capabilities, global, handle, is_bound, Reach, here, next,
}
use webos_wayland.Input.Step.{Reach-IsValid}
use webos_wayland.Input.Ledger.{made, given_up}
use webos_wayland.Input.Destroy.{IsEmpty, context_destroy-releases_seats}
use webos_wayland.Input.Observer.{Seen, nothing_seen, observer, Reach-focus_seen}
use webos_wayland.Input.Dedupe.{
  Report, recent_duplicate_iff, keys, keys-deliver, keys-in_turn, in_turn, deliver, unless_repeated,
  last_key, keyboard_key-mirror, pointer_button-mirror,
}
use webos_wayland.Input.Bind.{try_bind-first_free, global_remove-try_bind}

abbrev wl : Headers
wl = record {
  pointer_release_since = 3;
  keyboard_release_since = 3;
  seat_release_since = 5;
  capability_pointer = 1;
  capability_keyboard = 2;
  fixed_to_int = λ x. x;
}

abbrev proxy : ℕ → Proxy
proxy id = record { id = id; version = 3 }

abbrev start : Context Seen
unfolding context_init
start = context_init nothing_seen (some observer)

abbrev seat_comes : Event
seat_comes = global 30 "wl_seat" 7 (λ v. some (proxy 1))

abbrev devices_come : Event
devices_come = capabilities 0 3 (some (proxy 2)) (some (proxy 3))

abbrev entered : Context Seen
entered =
    handle wl (focus 0)
      (handle wl (enter 0 (pos 5) (pos 6)) (handle wl devices_come (handle wl seat_comes start)))

entered-Reach : Reach wl (context_init nothing_seen (some observer)) entered
unfolding handle try_bind bind_slot fill_slot find_slot context_init seat_capabilities
    update_pointer update_keyboard attach_pointer attach_keyboard has_pointer has_keyboard is_bound
    pointer_enter keyboard_enter
entered-Reach =
    next (focus 0)
      (next (enter 0 (pos 5) (pos 6)) (next devices_come (next seat_comes here _) refl) refl) refl

Reach-IsValid_example : IsValid entered
Reach-IsValid_example = Reach-IsValid wl nothing_seen (some observer) entered-Reach

context_destroy-releases_seats_example :
    All IsEmpty (context_destroy wl entered).seats
    × (total (made 2) (context_destroy wl entered).sent
        ≡ total (given_up 2) (context_destroy wl entered).sent)
context_destroy-releases_seats_example =
    context_destroy-releases_seats wl nothing_seen (some observer) entered-Reach 2

Reach-focus_seen_example :
    (entered.client.pointer ≡ ltb 0 (total pointer_focused entered.seats))
    × (entered.client.keyboard ≡ ltb 0 (total keyboard_focused entered.seats))
Reach-focus_seen_example = Reach-focus_seen wl entered-Reach

-- Three milliseconds over the turn of the clock.
recent_duplicate_iff_example : (recent_duplicate 2 4294967295 28 28 1 1 true ≡ true) ↔ (
    (true ≡ true)
    × ◌≡◌ {A = ℕ} 28 28
    × ◌≡◌ {A = ℕ} 1 1
    × ((d : ℕ) × (d ≤ 20) × (2 ≡ u32 (4294967295 + d))))
recent_duplicate_iff_example =
    recent_duplicate_iff 2 4294967295 28 28 1 1 true (omega arith) (omega arith)

abbrev report : ℕ → ℕ → Report
report slot time = record { slot = slot; time = time; key = 28; state = 1 }

abbrev counter : Callbacks ℕ
counter = record {
  pointer_enter = none;
  pointer_leave = none;
  pointer_motion = none;
  pointer_button = some (λ n button state x y. n + 1);
  keyboard_focus = none;
  keyboard_key = some (λ n key state. n + 1);
}

abbrev counting : Context ℕ
unfolding context_init
counting = context_init 0 (some counter)

keys-deliver_example :
    (keys counting (report 0 100 ∷ report 1 101 ∷ report 0 200 ∷ [])).client
    ≡ deliver counting.callbacks.keyboard_key counting.client
        (unless_repeated (last_key counting) (report 0 100 ∷ report 1 101 ∷ report 0 200 ∷ []))
keys-deliver_example = keys-deliver (report 0 100 ∷ report 1 101 ∷ report 0 200 ∷ []) counting

-- Keys 28 and 103, pressed within 1 ms and mirrored by a second seat, reach the client twice each.
keys-in_turn_example :
    (keys counting (in_turn 2 (report 0 100) (record (report 0 101) { key = 103 }))).client
    ≡ deliver counting.callbacks.keyboard_key counting.client
        (in_turn 2 (report 0 100) (record (report 0 101) { key = 103 }))
unfolding recent_duplicate counting
keys-in_turn_example =
    keys-in_turn 2 (report 0 100) (record (report 0 101) { key = 103 }) counting refl refl

keyboard_key-mirror_example :
    keyboard_key 1 (u32 (100 + 4)) 28 1 (keyboard_key 0 100 28 1 counting)
    ≡ keyboard_key 0 100 28 1 counting
unfolding recent_duplicate counting
keyboard_key-mirror_example =
    keyboard_key-mirror counting 0 1 100 4 28 1 (omega arith) (omega arith) refl

pointer_button-mirror_example :
    pointer_button 1 (u32 (100 + 4)) 272 1 (pointer_button 0 100 272 1 counting)
    ≡ pointer_button 0 100 272 1 counting
unfolding recent_duplicate counting
pointer_button-mirror_example =
    pointer_button-mirror counting 0 1 100 4 272 1 refl refl (omega arith) (omega arith) refl

entered-IsValid : IsValid entered
entered-IsValid = Reach-IsValid wl nothing_seen (some observer) entered-Reach

-- A second seat goes to slot 1.
try_bind-first_free_example :
    let (took, c') = try_bind 31 "wl_seat" 7 (λ v. some (proxy 9)) entered in
    (took ≡ true)
    × ((s : InputSeat) × (is_free s ≡ true)
        × (get_elem? entered.seats 1 ≡ some s)
        × (c'.seats
            ≡ set entered.seats 1 (record s {
              seat = some (proxy 9);
              registry_name = 31;
              index = entered.seat_count;
            })))
    × All (λ u. is_free u ≡ false) (take 1 entered.seats)
    × (c'.sent ≡ entered.sent ++ (bind_seat (proxy 9) ∷ []))
unfolding handle try_bind bind_slot fill_slot find_slot context_init seat_capabilities
    update_pointer update_keyboard attach_pointer attach_keyboard has_pointer has_keyboard
    pointer_enter keyboard_enter
try_bind-first_free_example = try_bind-first_free 31 7 (λ v. some (proxy 9)) entered refl refl

global_remove-try_bind_example :
    global_remove wl 31 (try_bind 31 "wl_seat" 7 (λ v. some (proxy 9)) entered).1 ≡ record entered {
      seats = set entered.seats 1 blank;
      seat_count = u32 (entered.seat_count + 1);
      sent =
          (entered.sent ++ (bind_seat (proxy 9) ∷ []))
          ++ ((if leb wl.seat_release_since (proxy 9).version
                then release_seat (proxy 9)
                else destroy_seat (proxy 9))
              ∷ []);
    }
unfolding handle try_bind bind_slot fill_slot find_slot context_init seat_capabilities
    update_pointer update_keyboard attach_pointer attach_keyboard has_pointer has_keyboard
    pointer_enter keyboard_enter
global_remove-try_bind_example =
    global_remove-try_bind wl 31 7 (λ v. some (proxy 9)) entered entered-IsValid refl refl refl
