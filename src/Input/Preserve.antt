-- ===== src/Input/Preserve.antt =====
-- The operations on one slot keep the invariant, and say what the slot then holds.
use webos_wayland.Base.{
  ℕ, ◌+◌, ◌≡◌, refl, false, none, some, get_elem?, set, arith, Option-cases, Bool-cases, inl, inr,
  lt_of_get_elem?, get_elem?-set_self, ◌∙◌, ap,
}
use webos_wayland.Wayland.{Headers}
use webos_wayland.Input.{InputSeat, Context}
use webos_wayland.Input.Focus.{
  clear_pointer_focus, clear_keyboard_focus, destroy_pointer, destroy_keyboard, destroy_seat_proxy,
}
use webos_wayland.Input.Registry.{blank, destroy_input_seat}
use webos_wayland.Input.Invariant.{
  IsSettled, IsValid, put-IsValid, seat-IsSettled, focused-counted, pointer_focused,
  keyboard_focused,
}

pub blank-IsSettled : IsSettled blank
blank-IsSettled = ground arith

abbrev pub unfocused : InputSeat → InputSeat
unfocused s = record s { pointer_focused = false; keyboard_focused = false }

module _ {D : Type 0} where
  -- `c` is valid, and holds `s` in slot `i`.
  pub record ValidAt (i : ℕ) (s : InputSeat) (c : Context D) : Type 0 where
    pub valid : IsValid c
    pub at : get_elem? c.seats i ≡ some s

  -- `put-IsValid`, with what the slot holds.
  pub write-ValidAt :
      (c c' : Context D) (i : ℕ) (s t : InputSeat)
      → ValidAt i s c
      → IsSettled t
      → c'.seats ≡ set c.seats i t
      → c'.pointer_focus_count + pointer_focused s ≡ c.pointer_focus_count + pointer_focused t
      → c'.keyboard_focus_count + keyboard_focused s ≡ c.keyboard_focus_count + keyboard_focused t
      → ValidAt i t c'
  write-ValidAt c c' i s t v st e p k = record {
    valid = put-IsValid c c' i s t v.valid v.at st e p k;
    at =
        ap (λ ss. get_elem? ss i) e
        ∙ get_elem?-set_self c.seats i t (lt_of_get_elem? c.seats i s v.at);
  }

  pub clear_pointer_focus-ValidAt :
      (i : ℕ) (s : InputSeat) (c : Context D)
      → ValidAt i s c
      → ValidAt i (record s { pointer_focused = false }) (clear_pointer_focus i c)
  unfolding clear_pointer_focus
  clear_pointer_focus-ValidAt i s c v = elim (Bool-cases s.pointer_focused) [
    | inr idle ↦ ground arith
    | inl held ↦
        write-ValidAt c (clear_pointer_focus i c) i s (record s { pointer_focused = false }) v
          (ground (arith, seat-IsSettled i v.valid v.at)) (ground arith)
          (ground (arith, focused-counted i v.valid v.at)) (ground arith)
  ]

  pub clear_keyboard_focus-ValidAt :
      (i : ℕ) (s : InputSeat) (c : Context D)
      → ValidAt i s c
      → ValidAt i (record s { keyboard_focused = false }) (clear_keyboard_focus i c)
  unfolding clear_keyboard_focus
  clear_keyboard_focus-ValidAt i s c v = elim (Bool-cases s.keyboard_focused) [
    | inr idle ↦ ground arith
    | inl held ↦
        write-ValidAt c (clear_keyboard_focus i c) i s (record s { keyboard_focused = false }) v
          (ground (arith, seat-IsSettled i v.valid v.at)) (ground arith) (ground arith)
          (ground (arith, focused-counted i v.valid v.at))
  ]

  pub destroy_pointer-ValidAt :
      (wl : Headers) (i : ℕ) (s : InputSeat) (c : Context D)
      → ValidAt i s c
      → s.pointer_focused ≡ false
      → ValidAt i (record s { pointer = none }) (destroy_pointer wl i c)
  unfolding destroy_pointer
  destroy_pointer-ValidAt wl i s c v idle = elim (Option-cases s.pointer) [
    | inl e ↦ ground arith
    | inr (p, e) ↦
        write-ValidAt c (destroy_pointer wl i c) i s (record s { pointer = none }) v
          (ground (arith, seat-IsSettled i v.valid v.at)) (ground arith) (ground arith)
          (ground arith)
  ]

  pub destroy_keyboard-ValidAt :
      (wl : Headers) (i : ℕ) (s : InputSeat) (c : Context D)
      → ValidAt i s c
      → s.keyboard_focused ≡ false
      → ValidAt i (record s { keyboard = none }) (destroy_keyboard wl i c)
  unfolding destroy_keyboard
  destroy_keyboard-ValidAt wl i s c v idle = elim (Option-cases s.keyboard) [
    | inl e ↦ ground arith
    | inr (p, e) ↦
        write-ValidAt c (destroy_keyboard wl i c) i s (record s { keyboard = none }) v
          (ground (arith, seat-IsSettled i v.valid v.at)) (ground arith) (ground arith)
          (ground arith)
  ]

  pub destroy_seat_proxy-ValidAt :
      (wl : Headers) (i : ℕ) (s : InputSeat) (c : Context D)
      → ValidAt i s c
      → s.pointer ≡ none
      → s.keyboard ≡ none
      → ValidAt i (record s { seat = none }) (destroy_seat_proxy wl i c)
  unfolding destroy_seat_proxy
  destroy_seat_proxy-ValidAt wl i s c v p k = elim (Option-cases s.seat) [
    | inl e ↦ ground arith
    | inr (q, e) ↦
        write-ValidAt c (destroy_seat_proxy wl i c) i s (record s { seat = none }) v
          (ground (arith, seat-IsSettled i v.valid v.at)) (ground arith) (ground arith)
          (ground arith)
  ]

  -- `destroy_input_seat` before its `memset`, and the slot then.
  abbrev pub emptied : Headers → ℕ → Context D → Context D
  emptied wl i c = destroy_seat_proxy wl i (
      destroy_keyboard wl i
        (destroy_pointer wl i (clear_keyboard_focus i (clear_pointer_focus i c))))

  pub emptied-ValidAt :
      (wl : Headers) (i : ℕ) (s : InputSeat) (c : Context D)
      → ValidAt i s c
      → ValidAt i
          (record (unfocused s) { seat = none; pointer = none; keyboard = none })
          (emptied wl i c)
  emptied-ValidAt wl i s c v =
      let v₁ = clear_pointer_focus-ValidAt i s c v in
      let v₂ = clear_keyboard_focus-ValidAt i _ _ v₁ in
      let v₃ = destroy_pointer-ValidAt wl i _ _ v₂ refl in
      let v₄ = destroy_keyboard-ValidAt wl i _ _ v₃ refl in
      destroy_seat_proxy-ValidAt wl i _ _ v₄ refl refl

  pub destroy_input_seat-ValidAt :
      (wl : Headers) (i : ℕ) (s : InputSeat) (c : Context D)
      → ValidAt i s c
      → ValidAt i blank (destroy_input_seat wl i c)
  unfolding destroy_input_seat
  destroy_input_seat-ValidAt wl i s c v =
      write-ValidAt (emptied wl i c) (destroy_input_seat wl i c) i _ blank
        (emptied-ValidAt wl i s c v) blank-IsSettled refl refl refl
