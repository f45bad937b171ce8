-- ===== src/Input/Isolation.antt =====
-- Taking one slot down leaves the other slots as they were.
use webos_wayland.Base.{
  ℕ, ◌≡◌, ◌≢◌, ◌∙◌, false, none, get_elem?, arith, Option-cases, inl, inr, get_elem?-set_ne,
}
use webos_wayland.Wayland.{Headers}
use webos_wayland.Input.{Context}
use webos_wayland.Input.Focus.{
  clear_pointer_focus, clear_keyboard_focus, destroy_pointer, destroy_keyboard, destroy_seat_proxy,
}
use webos_wayland.Input.Registry.{blank, destroy_input_seat}
use webos_wayland.Input.Preserve.{emptied}

module _ {D : Type 0} (i m : ℕ) (ne : i ≢ m) where
  clear_pointer_focus-other :
      (c : Context D) → get_elem? (clear_pointer_focus i c).seats m ≡ get_elem? c.seats m
  unfolding clear_pointer_focus
  clear_pointer_focus-other c = elim (Option-cases (get_elem? c.seats i)) [
    | inl e ↦ ground arith
    | inr (s, e) ↦
        ground (arith, get_elem?-set_ne c.seats (record s { pointer_focused = false }) ne)
  ]

  clear_keyboard_focus-other :
      (c : Context D) → get_elem? (clear_keyboard_focus i c).seats m ≡ get_elem? c.seats m
  unfolding clear_keyboard_focus
  clear_keyboard_focus-other c = elim (Option-cases (get_elem? c.seats i)) [
    | inl e ↦ ground arith
    | inr (s, e) ↦
        ground (arith, get_elem?-set_ne c.seats (record s { keyboard_focused = false }) ne)
  ]

  destroy_pointer-other :
      (wl : Headers) (c : Context D)
      → get_elem? (destroy_pointer wl i c).seats m ≡ get_elem? c.seats m
  unfolding destroy_pointer
  destroy_pointer-other wl c = elim (Option-cases (get_elem? c.seats i)) [
    | inl e ↦ ground arith
    | inr (s, e) ↦ ground (arith, get_elem?-set_ne c.seats (record s { pointer = none }) ne)
  ]

  destroy_keyboard-other :
      (wl : Headers) (c : Context D)
      → get_elem? (destroy_keyboard wl i c).seats m ≡ get_elem? c.seats m
  unfolding destroy_keyboard
  destroy_keyboard-other wl c = elim (Option-cases (get_elem? c.seats i)) [
    | inl e ↦ ground arith
    | inr (s, e) ↦ ground (arith, get_elem?-set_ne c.seats (record s { keyboard = none }) ne)
  ]

  destroy_seat_proxy-other :
      (wl : Headers) (c : Context D)
      → get_elem? (destroy_seat_proxy wl i c).seats m ≡ get_elem? c.seats m
  unfolding destroy_seat_proxy
  destroy_seat_proxy-other wl c = elim (Option-cases (get_elem? c.seats i)) [
    | inl e ↦ ground arith
    | inr (s, e) ↦ ground (arith, get_elem?-set_ne c.seats (record s { seat = none }) ne)
  ]

  pub destroy_input_seat-other :
      (wl : Headers) (c : Context D)
      → get_elem? (destroy_input_seat wl i c).seats m ≡ get_elem? c.seats m
  unfolding destroy_input_seat
  destroy_input_seat-other wl c =
      get_elem?-set_ne (emptied wl i c).seats blank ne
      ∙ destroy_seat_proxy-other wl _
      ∙ destroy_keyboard-other wl _
      ∙ destroy_pointer-other wl _
      ∙ clear_keyboard_focus-other _
      ∙ clear_pointer_focus-other c
