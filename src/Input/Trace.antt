-- ===== src/Input/Trace.antt =====
-- The listeners as one machine: what can arrive, what it does, and the contexts that come of it.
use webos_wayland.Base.{
  ℕ, ℤ, ◌≡◌, Bool, true, false, Option, none, some, get_elem?, is_some, String,
}
use webos_wayland.Wayland.{Headers, Proxy}
use webos_wayland.Input.{Context}
use webos_wayland.Input.Events.{
  pointer_enter, pointer_leave, pointer_motion, pointer_button, keyboard_enter, keyboard_leave,
  keyboard_key, seat_capabilities, has_pointer, has_keyboard,
}
use webos_wayland.Input.Registry.{try_bind, global_remove}

-- One call by libwayland, with the slot of its listener and what the calls in it return.
pub data Event : Type 0 where
  enter : ℕ → ℤ → ℤ → Event
  leave : ℕ → Event
  motion : ℕ → ℤ → ℤ → Event
  button : ℕ → ℕ → ℕ → ℕ → Event
  focus : ℕ → Event
  unfocus : ℕ → Event
  key : ℕ → ℕ → ℕ → ℕ → Event
  capabilities : ℕ → ℕ → Option Proxy → Option Proxy → Event
  global : ℕ → String → ℕ → (ℕ → Option Proxy) → Event
  removed : ℕ → Event

module _ {D : Type 0} where
  unfoldable pub handle : Headers → Event → Context D → Context D
  handle wl (enter i sx sy) c = pointer_enter wl i sx sy c
  handle wl (leave i) c = pointer_leave i c
  handle wl (motion i sx sy) c = pointer_motion wl i sx sy c
  handle wl (button i time b state) c = pointer_button i time b state c
  handle wl (focus i) c = keyboard_enter i c
  handle wl (unfocus i) c = keyboard_leave i c
  handle wl (key i time k state) c = keyboard_key i time k state c
  handle wl (capabilities i caps pointer keyboard) c =
      seat_capabilities wl i caps pointer keyboard c
  handle wl (global name interface version bind) c = (try_bind name interface version bind c).1
  handle wl (removed name) c = global_remove wl name c

  unfoldable pub is_bound : ℕ → Context D → Bool
  is_bound i c = elim (get_elem? c.seats i) [ none ↦ false | some s ↦ is_some s.seat ]

  -- libwayland calls the listener of an object only while its proxy exists.
  abbrev pub CanArrive : Event → Context D → Type 0
  CanArrive (enter i sx sy) c = has_pointer i c ≡ true
  CanArrive (leave i) c = has_pointer i c ≡ true
  CanArrive (motion i sx sy) c = has_pointer i c ≡ true
  CanArrive (button i time b state) c = has_pointer i c ≡ true
  CanArrive (focus i) c = has_keyboard i c ≡ true
  CanArrive (unfocus i) c = has_keyboard i c ≡ true
  CanArrive (key i time k state) c = has_keyboard i c ≡ true
  CanArrive (capabilities i caps pointer keyboard) c = is_bound i c ≡ true
  CanArrive (global name interface version bind) c = Unit {0}
  CanArrive (removed name) c = Unit {0}

  pub data Reach (wl : Headers) (start : Context D) : Context D → Type 0 where
    here : Reach wl start start
    next :
        {c : Context D} (e : Event)
        → Reach wl start c
        → CanArrive e c
        → Reach wl start (handle wl e c)
