-- ===== src/Input/Observer.antt =====
-- What the callbacks tell a client about focus. The observer is a client that remembers, of each
-- device, only the last thing it was told.
use webos_wayland.Base.{
  ℕ, ℤ, ◌≡◌, refl, Bool, true, false, Option, none, some, total, arith, ltb, Option-cases,
  Bool-cases, inl, inr, String,
}
use webos_wayland.Wayland.{Headers, Proxy}
use webos_wayland.Input.{InputSeat, Context, Callbacks}
use webos_wayland.Input.Focus.{
  clear_pointer_focus, clear_keyboard_focus, destroy_pointer, destroy_keyboard, destroy_seat_proxy,
}
use webos_wayland.Input.Events.{
  pointer_enter, pointer_leave, pointer_motion, pointer_button, keyboard_enter, keyboard_leave,
  keyboard_key, seat_capabilities, update_pointer, update_keyboard, attach_pointer, attach_keyboard,
  has_capability,
}
use webos_wayland.Input.Registry.{
  context_init, try_bind, global_remove, destroy_input_seat, find_slot, is_named, bind_slot,
}
use webos_wayland.Input.Invariant.{
  IsValid, pointer_focused, keyboard_focused, focused-counted, counts_bounded,
}
use webos_wayland.Input.Preserve.{ValidAt, clear_pointer_focus-ValidAt}
use webos_wayland.Input.Capabilities.{update_pointer-ValidAt}
use webos_wayland.Input.Trace.{
  Event, enter, leave, motion, button, focus, unfocus, key, capabilities, global, removed, handle,
  CanArrive, Reach, here, next,
}
use webos_wayland.Input.Step.{Reach-IsValid, found_slot, pointer_slot, keyboard_slot, bound_slot}

pub record Seen : Type 0 where
  pub pointer : Bool
  pub keyboard : Bool

abbrev pub nothing_seen : Seen
nothing_seen = record { pointer = false; keyboard = false }

abbrev pub observer : Callbacks Seen
observer = record {
  pointer_enter = some (λ d x y. record d { pointer = true });
  pointer_leave = some (λ d. record d { pointer = false });
  pointer_motion = none;
  pointer_button = none;
  keyboard_focus = some (λ d on. record d { keyboard = on });
  keyboard_key = none;
}

pub record IsObserved (c : Context Seen) : Type 0 where
  pub observing : c.callbacks ≡ observer
  pub pointer_seen : c.client.pointer ≡ ltb 0 c.pointer_focus_count
  pub keyboard_seen : c.client.keyboard ≡ ltb 0 c.keyboard_focus_count

clear_pointer_focus-IsObserved :
    (i : ℕ) (s : InputSeat) (c : Context Seen)
    → ValidAt i s c
    → IsObserved c
    → IsObserved (clear_pointer_focus i c)
unfolding clear_pointer_focus
clear_pointer_focus-IsObserved i s c v o = ground (arith, focused-counted i v.valid v.at)

clear_keyboard_focus-IsObserved :
    (i : ℕ) (s : InputSeat) (c : Context Seen)
    → ValidAt i s c
    → IsObserved c
    → IsObserved (clear_keyboard_focus i c)
unfolding clear_keyboard_focus
clear_keyboard_focus-IsObserved i s c v o = ground (arith, focused-counted i v.valid v.at)

module _ (wl : Headers) (i : ℕ) where
  destroy_pointer-IsObserved :
      (c : Context Seen) → IsObserved c → IsObserved (destroy_pointer wl i c)
  unfolding destroy_pointer
  destroy_pointer-IsObserved c o = ground arith

  destroy_keyboard-IsObserved :
      (c : Context Seen) → IsObserved c → IsObserved (destroy_keyboard wl i c)
  unfolding destroy_keyboard
  destroy_keyboard-IsObserved c o = ground arith

  destroy_seat_proxy-IsObserved :
      (c : Context Seen) → IsObserved c → IsObserved (destroy_seat_proxy wl i c)
  unfolding destroy_seat_proxy
  destroy_seat_proxy-IsObserved c o = ground arith

  destroy_input_seat-IsObserved :
      (s : InputSeat) (c : Context Seen)
      → ValidAt i s c
      → IsObserved c
      → IsObserved (destroy_input_seat wl i c)
  unfolding destroy_input_seat
  destroy_input_seat-IsObserved s c v o =
      let v₁ = clear_pointer_focus-ValidAt i s c v in
      let o₁ = clear_pointer_focus-IsObserved i s c v o in
      let o₂ = clear_keyboard_focus-IsObserved i _ _ v₁ o₁ in
      let o₃ = destroy_pointer-IsObserved _ o₂ in
      let o₄ = destroy_keyboard-IsObserved _ o₃ in
      let o₅ = destroy_seat_proxy-IsObserved _ o₄ in
      record {
        observing = o₅.observing;
        pointer_seen = o₅.pointer_seen;
        keyboard_seen = o₅.keyboard_seen;
      }

  update_pointer-IsObserved :
      (caps : ℕ) (new : Option Proxy) (s : InputSeat) (c : Context Seen)
      → ValidAt i s c
      → IsObserved c
      → IsObserved (update_pointer wl i caps new c)
  unfolding update_pointer attach_pointer
  update_pointer-IsObserved caps new s c v o =
      elim (Bool-cases (has_capability caps wl.capability_pointer)) [
        | inr gone ↦
            rw gone (destroy_pointer-IsObserved _ (clear_pointer_focus-IsObserved i s c v o))
        | inl has ↦ rw has (ground arith)
      ]

  update_keyboard-IsObserved :
      (caps : ℕ) (new : Option Proxy) (s : InputSeat) (c : Context Seen)
      → ValidAt i s c
      → IsObserved c
      → IsObserved (update_keyboard wl i caps new c)
  unfolding update_keyboard attach_keyboard
  update_keyboard-IsObserved caps new s c v o =
      elim (Bool-cases (has_capability caps wl.capability_keyboard)) [
        | inr gone ↦
            rw gone (destroy_keyboard-IsObserved _ (clear_keyboard_focus-IsObserved i s c v o))
        | inl has ↦ rw has (ground arith)
      ]

  pointer_enter-IsObserved :
      (sx sy : ℤ) (s : InputSeat) (c : Context Seen)
      → ValidAt i s c
      → IsObserved c
      → IsObserved (pointer_enter wl i sx sy c)
  unfolding pointer_enter
  pointer_enter-IsObserved sx sy s c v o =
      ground (arith, focused-counted i v.valid v.at, counts_bounded v.valid)

keyboard_enter-IsObserved :
    (i : ℕ) (s : InputSeat) (c : Context Seen)
    → ValidAt i s c
    → IsObserved c
    → IsObserved (keyboard_enter i c)
unfolding keyboard_enter
keyboard_enter-IsObserved i s c v o =
    ground (arith, focused-counted i v.valid v.at, counts_bounded v.valid)

try_bind-IsObserved :
    (name : ℕ) (interface : String) (version : ℕ) (bind : ℕ → Option Proxy) (c : Context Seen)
    → IsObserved c
    → IsObserved (try_bind name interface version bind c).1
unfolding try_bind bind_slot
try_bind-IsObserved name interface version bind c o = ground arith

global_remove-IsObserved :
    (wl : Headers) (name : ℕ) (c : Context Seen)
    → IsValid c
    → IsObserved c
    → IsObserved (global_remove wl name c)
unfolding global_remove
global_remove-IsObserved wl name c v o = elim (Option-cases (find_slot (is_named name) 0 c.seats)) [
  | inl e ↦ rw (e, global_remove) o
  | inr (i, e) ↦
      let (s, at, _) = found_slot (is_named name) c i v e in
      rw (e, global_remove) (destroy_input_seat-IsObserved wl i s c at o)
]

handle-IsObserved :
    (wl : Headers) (e : Event) (c : Context Seen)
    → IsValid c
    → CanArrive e c
    → IsObserved c
    → IsObserved (handle wl e c)
unfolding handle pointer_leave keyboard_leave pointer_motion pointer_button keyboard_key
    seat_capabilities
handle-IsObserved wl (enter i sx sy) c v h o =
    let (s, at, p) = pointer_slot i c v h in pointer_enter-IsObserved wl i sx sy s c at o
handle-IsObserved wl (leave i) c v h o =
    let (s, at, p) = pointer_slot i c v h in clear_pointer_focus-IsObserved i s c at o
handle-IsObserved wl (motion i sx sy) c v h o = ground arith
handle-IsObserved wl (button i time n state) c v h o = ground arith
handle-IsObserved wl (focus i) c v h o =
    let (s, at, k) = keyboard_slot i c v h in keyboard_enter-IsObserved i s c at o
handle-IsObserved wl (unfocus i) c v h o =
    let (s, at, k) = keyboard_slot i c v h in clear_keyboard_focus-IsObserved i s c at o
handle-IsObserved wl (key i time k state) c v h o = ground arith
handle-IsObserved wl (capabilities i caps p k) c v h o =
    let (s, at, b) = bound_slot i c v h in
    update_keyboard-IsObserved wl i caps k _ _ (update_pointer-ValidAt wl i caps p s c at b)
      (update_pointer-IsObserved wl i caps p s c at o)
handle-IsObserved wl (global name interface version bind) c v h o =
    try_bind-IsObserved name interface version bind c o
handle-IsObserved wl (removed name) c v h o = global_remove-IsObserved wl name c v o

Reach-IsObserved :
    (wl : Headers) {c : Context Seen}
    → Reach wl (context_init nothing_seen (some observer)) c
    → IsObserved c
unfolding context_init
Reach-IsObserved wl here = record { observing = refl; pointer_seen = refl; keyboard_seen = refl }
Reach-IsObserved wl (next {c} e r h) =
    handle-IsObserved wl e c (Reach-IsValid wl nothing_seen (some observer) r) h
      (Reach-IsObserved wl r)

-- After any sequence of events the last thing that the callbacks told a client is right: it was
-- told of a pointer exactly when some slot's pointer is on the surface, and of keyboard focus
-- exactly when some slot's keyboard has it, however many seats there are.
pub Reach-focus_seen :
    (wl : Headers) {c : Context Seen}
    → Reach wl (context_init nothing_seen (some observer)) c
    → (c.client.pointer ≡ ltb 0 (total pointer_focused c.seats))
      × (c.client.keyboard ≡ ltb 0 (total keyboard_focused c.seats))
Reach-focus_seen wl r =
    let v = Reach-IsValid wl nothing_seen (some observer) r in
    let o = Reach-IsObserved wl r in
    (rw (← v.pointer_counted) o.pointer_seen, rw (← v.keyboard_counted) o.keyboard_seen)
