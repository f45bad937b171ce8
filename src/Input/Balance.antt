-- ===== src/Input/Balance.antt =====
-- Every event keeps the accounts of `Input.Ledger` balanced, and so does the end of the context.
use webos_wayland.Base.{
  ℕ, ℤ, ◌≡◌, refl, true, false, Option, none, some, [], ◌∷◌, total-set, arith, Bool-cases, inl, inr,
  is_some, append-nil, sym,
}
use webos_wayland.Wayland.{Headers, Proxy}
use webos_wayland.Input.{InputSeat, Context, bind_seat, get_pointer, get_keyboard}
use webos_wayland.Input.Events.{
  pointer_enter, pointer_motion, keyboard_enter, update_pointer, update_keyboard, attach_pointer,
  attach_keyboard, has_capability,
}
use webos_wayland.Input.Registry.{blank, destroy_input_seat, is_free, bind_slot}
use webos_wayland.Input.Invariant.{seat-IsSettled}
use webos_wayland.Input.Preserve.{
  ValidAt, clear_pointer_focus-ValidAt, clear_keyboard_focus-ValidAt, destroy_pointer-ValidAt,
  destroy_keyboard-ValidAt, emptied-ValidAt, emptied,
}
use webos_wayland.Input.Capabilities.{has_pointer_at, has_keyboard_at}
use webos_wayland.Input.Ledger.{
  held, IsBalanced, put-IsBalanced, clear_pointer_focus-IsBalanced, clear_keyboard_focus-IsBalanced,
  destroy_pointer-IsBalanced, destroy_keyboard-IsBalanced, destroy_seat_proxy-IsBalanced,
}

module _ {D : Type 0} where
  pub destroy_input_seat-IsBalanced :
      (wl : Headers) (id i : ℕ) (s : InputSeat) (c : Context D)
      → ValidAt i s c
      → IsBalanced id c
      → IsBalanced id (destroy_input_seat wl i c)
  unfolding destroy_input_seat
  destroy_input_seat-IsBalanced wl id i s c v b =
      let v₁ = clear_pointer_focus-ValidAt i s c v in
      let v₂ = clear_keyboard_focus-ValidAt i _ _ v₁ in
      let v₃ = destroy_pointer-ValidAt wl i _ _ v₂ refl in
      let v₄ = destroy_keyboard-ValidAt wl i _ _ v₃ refl in
      let b₁ = clear_pointer_focus-IsBalanced id i s c v b in
      let b₂ = clear_keyboard_focus-IsBalanced id i _ _ v₁ b₁ in
      let b₃ = destroy_pointer-IsBalanced wl id i _ _ v₂ b₂ in
      let b₄ = destroy_keyboard-IsBalanced wl id i _ _ v₃ b₃ in
      let b₅ = destroy_seat_proxy-IsBalanced wl id i _ _ v₄ b₄ in
      put-IsBalanced id (emptied wl i c) (destroy_input_seat wl i c) i _ blank [] b₅
        (emptied-ValidAt wl i s c v).at refl (sym (append-nil _)) refl

  attach_pointer-IsBalanced :
      (id i : ℕ) (new : Option Proxy) (s : InputSeat) (c : Context D)
      → ValidAt i s c
      → is_some s.pointer ≡ false
      → IsBalanced id c
      → IsBalanced id (attach_pointer i new c)
  unfolding attach_pointer
  attach_pointer-IsBalanced id i none s c v e b =
      ground (arith, total-set (held id) c.seats i s (record s { pointer = none }) v.at)
  attach_pointer-IsBalanced id i (some p) s c v e b =
      put-IsBalanced id c (attach_pointer i (some p) c) i s (record s { pointer = some p })
        (get_pointer p ∷ []) b v.at (ground arith) (ground arith) (ground arith)

  attach_keyboard-IsBalanced :
      (id i : ℕ) (new : Option Proxy) (s : InputSeat) (c : Context D)
      → ValidAt i s c
      → is_some s.keyboard ≡ false
      → IsBalanced id c
      → IsBalanced id (attach_keyboard i new c)
  unfolding attach_keyboard
  attach_keyboard-IsBalanced id i none s c v e b =
      ground (arith, total-set (held id) c.seats i s (record s { keyboard = none }) v.at)
  attach_keyboard-IsBalanced id i (some p) s c v e b =
      put-IsBalanced id c (attach_keyboard i (some p) c) i s (record s { keyboard = some p })
        (get_keyboard p ∷ []) b v.at (ground arith) (ground arith) (ground arith)

  pub update_pointer-IsBalanced :
      (wl : Headers) (id i caps : ℕ) (new : Option Proxy) (s : InputSeat) (c : Context D)
      → ValidAt i s c
      → IsBalanced id c
      → IsBalanced id (update_pointer wl i caps new c)
  unfolding update_pointer
  update_pointer-IsBalanced wl id i caps new s c v b =
      elim (Bool-cases (has_capability caps wl.capability_pointer)) [
        | inr gone ↦ rw gone (
            destroy_pointer-IsBalanced wl id i _ _ (clear_pointer_focus-ValidAt i s c v)
              (clear_pointer_focus-IsBalanced id i s c v b))
        | inl has ↦
            rw (has, has_pointer_at i s c v)
              (elim (Bool-cases (is_some s.pointer)) [
                | inl old ↦ rw old b
                | inr fresh ↦ rw fresh (attach_pointer-IsBalanced id i new s c v fresh b)
              ])
      ]

  pub update_keyboard-IsBalanced :
      (wl : Headers) (id i caps : ℕ) (new : Option Proxy) (s : InputSeat) (c : Context D)
      → ValidAt i s c
      → IsBalanced id c
      → IsBalanced id (update_keyboard wl i caps new c)
  unfolding update_keyboard
  update_keyboard-IsBalanced wl id i caps new s c v b =
      elim (Bool-cases (has_capability caps wl.capability_keyboard)) [
        | inr gone ↦ rw gone (
            destroy_keyboard-IsBalanced wl id i _ _ (clear_keyboard_focus-ValidAt i s c v)
              (clear_keyboard_focus-IsBalanced id i s c v b))
        | inl has ↦
            rw (has, has_keyboard_at i s c v)
              (elim (Bool-cases (is_some s.keyboard)) [
                | inl old ↦ rw old b
                | inr fresh ↦ rw fresh (attach_keyboard-IsBalanced id i new s c v fresh b)
              ])
      ]

  pub pointer_enter-IsBalanced :
      (wl : Headers) (id i : ℕ) (sx sy : ℤ) (s : InputSeat) (c : Context D)
      → ValidAt i s c
      → IsBalanced id c
      → IsBalanced id (pointer_enter wl i sx sy c)
  unfolding pointer_enter
  pointer_enter-IsBalanced wl id i sx sy s c v b =
      put-IsBalanced id c (pointer_enter wl i sx sy c) i s
        (record s {
          pointer_x = wl.fixed_to_int sx;
          pointer_y = wl.fixed_to_int sy;
          pointer_focused = true;
        })
        [] b v.at (ground arith) (ground (arith, append-nil c.sent)) refl

  pub pointer_motion-IsBalanced :
      (wl : Headers) (id i : ℕ) (sx sy : ℤ) (s : InputSeat) (c : Context D)
      → ValidAt i s c
      → IsBalanced id c
      → IsBalanced id (pointer_motion wl i sx sy c)
  unfolding pointer_motion
  pointer_motion-IsBalanced wl id i sx sy s c v b =
      put-IsBalanced id c (pointer_motion wl i sx sy c) i s
        (record s { pointer_x = wl.fixed_to_int sx; pointer_y = wl.fixed_to_int sy }) [] b v.at
        (ground arith) (ground (arith, append-nil c.sent)) refl

  pub keyboard_enter-IsBalanced :
      (id i : ℕ) (s : InputSeat) (c : Context D)
      → ValidAt i s c
      → IsBalanced id c
      → IsBalanced id (keyboard_enter i c)
  unfolding keyboard_enter
  keyboard_enter-IsBalanced id i s c v b =
      put-IsBalanced id c (keyboard_enter i c) i s (record s { keyboard_focused = true }) [] b v.at
        (ground arith) (ground (arith, append-nil c.sent)) refl

  pub bind_slot-IsBalanced :
      (id name i : ℕ) (bound : Option Proxy) (s : InputSeat) (c : Context D)
      → ValidAt i s c
      → is_free s ≡ true
      → IsBalanced id c
      → IsBalanced id (bind_slot name i bound c).1
  unfolding bind_slot
  bind_slot-IsBalanced id name i none s c v free b =
      put-IsBalanced id c (bind_slot name i none c).1 i s blank [] b v.at refl
        (sym (append-nil c.sent)) (ground (arith, seat-IsSettled i v.valid v.at))
  bind_slot-IsBalanced id name i (some p) s c v free b =
      put-IsBalanced id c (bind_slot name i (some p) c).1 i s
        (record s { seat = some p; registry_name = name; index = c.seat_count }) (bind_seat p ∷ [])
        b v.at (ground arith) (ground arith) (ground arith)
