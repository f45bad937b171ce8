-- ===== src/Input/Ledger.antt =====
-- The accounts of proxies: what was made, what was given up, what the slots hold.
use webos_wayland.Base.{
  ℕ, ◌+◌, ◌≡◌, false, Option, none, some, List, [], ◌∷◌, ◌++◌, if◌then◌else◌, ◌==◌, get_elem?, set,
  total, total-set, total-append, arith, Option-cases, inl, inr, ap, leb,
}
use webos_wayland.Wayland.{Headers, Proxy}
use webos_wayland.Input.{
  InputSeat, Context, Request, bind_seat, get_pointer, get_keyboard, release_pointer,
  destroy_pointer as destroy_pointer_proxy, release_keyboard,
  destroy_keyboard as destroy_keyboard_proxy, release_seat, destroy_seat,
}
use webos_wayland.Input.Focus.{
  clear_pointer_focus, clear_keyboard_focus, destroy_pointer, destroy_keyboard, destroy_seat_proxy,
}
use webos_wayland.Input.Preserve.{ValidAt}

abbrev pub is_proxy : ℕ → Proxy → ℕ
is_proxy id p = if p.id == id then 1 else 0

-- 1 for a request that made the proxy `id`
abbrev pub made : ℕ → Request → ℕ
made id (bind_seat p) = is_proxy id p
made id (get_pointer p) = is_proxy id p
made id (get_keyboard p) = is_proxy id p
made id _ = 0

-- 1 for a request that gave the proxy `id` up
abbrev pub given_up : ℕ → Request → ℕ
given_up id (bind_seat p) = 0
given_up id (get_pointer p) = 0
given_up id (get_keyboard p) = 0
given_up id (release_pointer p) = is_proxy id p
given_up id (destroy_pointer_proxy p) = is_proxy id p
given_up id (release_keyboard p) = is_proxy id p
given_up id (destroy_keyboard_proxy p) = is_proxy id p
given_up id (release_seat p) = is_proxy id p
given_up id (destroy_seat p) = is_proxy id p

abbrev pub is_held : ℕ → Option Proxy → ℕ
is_held id none = 0
is_held id (some p) = is_proxy id p

-- how many of the slot's pointers are the proxy `id`
abbrev pub held : ℕ → InputSeat → ℕ
held id s = is_held id s.seat + is_held id s.pointer + is_held id s.keyboard

module _ {D : Type 0} where
  -- Each proxy was made as often as it was given up or is still held.
  abbrev pub IsBalanced : ℕ → Context D → Type 0
  IsBalanced id c = total (made id) c.sent ≡ total (given_up id) c.sent + total (held id) c.seats

  pub put-IsBalanced :
      (id : ℕ) (c c' : Context D) (i : ℕ) (s t : InputSeat) (rs : List Request)
      → IsBalanced id c
      → get_elem? c.seats i ≡ some s
      → c'.seats ≡ set c.seats i t
      → c'.sent ≡ c.sent ++ rs
      → total (made id) rs + held id s ≡ total (given_up id) rs + held id t
      → IsBalanced id c'
  put-IsBalanced id c c' i s t rs b at e f h = omega (
    arith,
    ap (total (made id)) f,
    ap (total (given_up id)) f,
    total-append (made id) c.sent rs,
    total-append (given_up id) c.sent rs,
    ap (total (held id)) e,
    total-set (held id) c.seats i s t at,
    b,
    h,
  )

  pub clear_pointer_focus-IsBalanced :
      (id i : ℕ) (s : InputSeat) (c : Context D)
      → ValidAt i s c
      → IsBalanced id c
      → IsBalanced id (clear_pointer_focus i c)
  unfolding clear_pointer_focus
  clear_pointer_focus-IsBalanced id i s c v b =
      ground (arith, total-set (held id) c.seats i s (record s { pointer_focused = false }) v.at)

  pub clear_keyboard_focus-IsBalanced :
      (id i : ℕ) (s : InputSeat) (c : Context D)
      → ValidAt i s c
      → IsBalanced id c
      → IsBalanced id (clear_keyboard_focus i c)
  unfolding clear_keyboard_focus
  clear_keyboard_focus-IsBalanced id i s c v b =
      ground (arith, total-set (held id) c.seats i s (record s { keyboard_focused = false }) v.at)

  pub destroy_pointer-IsBalanced :
      (wl : Headers) (id i : ℕ) (s : InputSeat) (c : Context D)
      → ValidAt i s c
      → IsBalanced id c
      → IsBalanced id (destroy_pointer wl i c)
  unfolding destroy_pointer
  destroy_pointer-IsBalanced wl id i s c v b = elim (Option-cases s.pointer) [
    | inl e ↦ ground arith
    | inr (p, e) ↦
        put-IsBalanced id c (destroy_pointer wl i c) i s (record s { pointer = none })
          ((if leb wl.pointer_release_since p.version
              then release_pointer p
              else destroy_pointer_proxy p)
            ∷ [])
          b v.at (ground arith) (ground arith) (ground arith)
  ]

  pub destroy_keyboard-IsBalanced :
      (wl : Headers) (id i : ℕ) (s : InputSeat) (c : Context D)
      → ValidAt i s c
      → IsBalanced id c
      → IsBalanced id (destroy_keyboard wl i c)
  unfolding destroy_keyboard
  destroy_keyboard-IsBalanced wl id i s c v b = elim (Option-cases s.keyboard) [
    | inl e ↦ ground arith
    | inr (p, e) ↦
        put-IsBalanced id c (destroy_keyboard wl i c) i s (record s { keyboard = none })
          ((if leb wl.keyboard_release_since p.version
              then release_keyboard p
              else destroy_keyboard_proxy p)
            ∷ [])
          b v.at (ground arith) (ground arith) (ground arith)
  ]

  pub destroy_seat_proxy-IsBalanced :
      (wl : Headers) (id i : ℕ) (s : InputSeat) (c : Context D)
      → ValidAt i s c
      → IsBalanced id c
      → IsBalanced id (destroy_seat_proxy wl i c)
  unfolding destroy_seat_proxy
  destroy_seat_proxy-IsBalanced wl id i s c v b = elim (Option-cases s.seat) [
    | inl e ↦ ground arith
    | inr (p, e) ↦
        put-IsBalanced id c (destroy_seat_proxy wl i c) i s (record s { seat = none })
          ((if leb wl.seat_release_since p.version then release_seat p else destroy_seat p) ∷ []) b
          v.at (ground arith) (ground arith) (ground arith)
  ]
