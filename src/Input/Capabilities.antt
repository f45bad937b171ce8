-- ===== src/Input/Capabilities.antt =====
-- `seat_capabilities`: what it leaves in a slot, and that it keeps the invariant.
use webos_wayland.Base.{
  ℕ, ◌≡◌, refl, true, false, Option, none, arith, Bool-cases, inl, inr, is_some, if◌then◌else◌,
}
use webos_wayland.Wayland.{Headers, Proxy}
use webos_wayland.Input.{InputSeat, Context}
use webos_wayland.Input.Events.{
  seat_capabilities, update_pointer, update_keyboard, attach_pointer, attach_keyboard, has_pointer,
  has_keyboard, has_capability,
}
use webos_wayland.Input.Invariant.{seat-IsSettled}
use webos_wayland.Input.Preserve.{
  ValidAt, write-ValidAt, clear_pointer_focus-ValidAt, clear_keyboard_focus-ValidAt,
  destroy_pointer-ValidAt, destroy_keyboard-ValidAt,
}

-- What the first `if` of `seat_capabilities` leaves in the slot, and the second.
abbrev pub pointer_after : Headers → ℕ → Option Proxy → InputSeat → InputSeat
pointer_after wl caps made s =
    if has_capability caps wl.capability_pointer
    then (if is_some s.pointer then s else record s { pointer = made })
    else record s { pointer = none; pointer_focused = false }

abbrev pub keyboard_after : Headers → ℕ → Option Proxy → InputSeat → InputSeat
keyboard_after wl caps made s =
    if has_capability caps wl.capability_keyboard
    then (if is_some s.keyboard then s else record s { keyboard = made })
    else record s { keyboard = none; keyboard_focused = false }

module _ {D : Type 0} where
  pub has_pointer_at :
      (i : ℕ) (s : InputSeat) (c : Context D) → ValidAt i s c → has_pointer i c ≡ is_some s.pointer
  unfolding has_pointer
  has_pointer_at i s c v = ground arith

  pub has_keyboard_at :
      (i : ℕ) (s : InputSeat) (c : Context D)
      → ValidAt i s c
      → has_keyboard i c ≡ is_some s.keyboard
  unfolding has_keyboard
  has_keyboard_at i s c v = ground arith

  attach_pointer-ValidAt :
      (i : ℕ) (made : Option Proxy) (s : InputSeat) (c : Context D)
      → ValidAt i s c
      → is_some s.seat ≡ true
      → is_some s.pointer ≡ false
      → ValidAt i (record s { pointer = made }) (attach_pointer i made c)
  unfolding attach_pointer
  attach_pointer-ValidAt i made s c v b e =
      write-ValidAt c (attach_pointer i made c) i s (record s { pointer = made }) v
        (ground (arith, seat-IsSettled i v.valid v.at)) (ground arith) (ground arith) (ground arith)

  attach_keyboard-ValidAt :
      (i : ℕ) (made : Option Proxy) (s : InputSeat) (c : Context D)
      → ValidAt i s c
      → is_some s.seat ≡ true
      → is_some s.keyboard ≡ false
      → ValidAt i (record s { keyboard = made }) (attach_keyboard i made c)
  unfolding attach_keyboard
  attach_keyboard-ValidAt i made s c v b e =
      write-ValidAt c (attach_keyboard i made c) i s (record s { keyboard = made }) v
        (ground (arith, seat-IsSettled i v.valid v.at)) (ground arith) (ground arith) (ground arith)

  pub update_pointer-ValidAt :
      (wl : Headers) (i caps : ℕ) (made : Option Proxy) (s : InputSeat) (c : Context D)
      → ValidAt i s c
      → is_some s.seat ≡ true
      → ValidAt i (pointer_after wl caps made s) (update_pointer wl i caps made c)
  unfolding update_pointer
  update_pointer-ValidAt wl i caps made s c v b =
      elim (Bool-cases (has_capability caps wl.capability_pointer)) [
        | inr gone ↦
            rw gone (destroy_pointer-ValidAt wl i _ _ (clear_pointer_focus-ValidAt i s c v) refl)
        | inl has ↦
            rw (has, has_pointer_at i s c v)
              (elim (Bool-cases (is_some s.pointer)) [
                | inl old ↦ rw old v
                | inr new ↦ rw new (attach_pointer-ValidAt i made s c v b new)
              ])
      ]

  update_keyboard-ValidAt :
      (wl : Headers) (i caps : ℕ) (made : Option Proxy) (s : InputSeat) (c : Context D)
      → ValidAt i s c
      → is_some s.seat ≡ true
      → ValidAt i (keyboard_after wl caps made s) (update_keyboard wl i caps made c)
  unfolding update_keyboard
  update_keyboard-ValidAt wl i caps made s c v b =
      elim (Bool-cases (has_capability caps wl.capability_keyboard)) [
        | inr gone ↦
            rw gone (destroy_keyboard-ValidAt wl i _ _ (clear_keyboard_focus-ValidAt i s c v) refl)
        | inl has ↦
            rw (has, has_keyboard_at i s c v)
              (elim (Bool-cases (is_some s.keyboard)) [
                | inl old ↦ rw old v
                | inr new ↦ rw new (attach_keyboard-ValidAt i made s c v b new)
              ])
      ]

  pub seat_capabilities-ValidAt :
      (wl : Headers) (i caps : ℕ) (pointer keyboard : Option Proxy) (s : InputSeat) (c : Context D)
      → ValidAt i s c
      → is_some s.seat ≡ true
      → ValidAt i
          (keyboard_after wl caps keyboard (pointer_after wl caps pointer s))
          (seat_capabilities wl i caps pointer keyboard c)
  unfolding seat_capabilities
  seat_capabilities-ValidAt wl i caps pointer keyboard s c v b =
      update_keyboard-ValidAt wl i caps keyboard _ _
        (update_pointer-ValidAt wl i caps pointer s c v b) (ground arith)
