-- ===== src/Input/Focus.antt =====
-- native/webos_input.c, lines 22 to 78: giving up the focus and the proxies of a slot.
-- `input_seat` is the number of its slot in `seats`; a number past the table changes nothing.
use webos_wayland.Base.{
  ℕ, ◌-◌, false, none, some, [], ◌∷◌, ◌++◌, if◌then◌else◌, ltb, leb, ◌==◌, get_elem?, set,
  call_if_set,
}
use webos_wayland.Wayland.{Headers}
use webos_wayland.Input.{
  InputSeat, Context, Request, release_pointer, destroy_pointer as destroy_pointer_proxy,
  release_keyboard, destroy_keyboard as destroy_keyboard_proxy, release_seat, destroy_seat,
}

-- `count--` under `count > 0`
abbrev pub drop_one : ℕ → ℕ
drop_one n = if ltb 0 n then n - 1 else n

module _ {D : Type 0} where
  -- a write through `input_seat`
  abbrev pub put_seat : ℕ → InputSeat → Context D → Context D
  put_seat i s c = record c { seats = set c.seats i s }

  abbrev pub send : Request → Context D → Context D
  send r c = record c { sent = c.sent ++ (r ∷ []) }

  unfoldable pub clear_pointer_focus : ℕ → Context D → Context D
  clear_pointer_focus i c = elim (get_elem? c.seats i) [
    | none ↦ c
    | some s ↦
        if s.pointer_focused
        then record c {
          seats = set c.seats i (record s { pointer_focused = false });
          pointer_focus_count = drop_one c.pointer_focus_count;
          client =
              if drop_one c.pointer_focus_count == 0
              then call_if_set c.callbacks.pointer_leave (λ f. f c.client) c.client
              else c.client;
        }
        else c
  ]

  unfoldable pub clear_keyboard_focus : ℕ → Context D → Context D
  clear_keyboard_focus i c = elim (get_elem? c.seats i) [
    | none ↦ c
    | some s ↦
        if s.keyboard_focused
        then record c {
          seats = set c.seats i (record s { keyboard_focused = false });
          keyboard_focus_count = drop_one c.keyboard_focus_count;
          client =
              if drop_one c.keyboard_focus_count == 0
              then call_if_set c.callbacks.keyboard_focus (λ f. f c.client false) c.client
              else c.client;
        }
        else c
  ]

  -- The three destructors: a proxy of an old version has no release request.
  unfoldable pub destroy_pointer : Headers → ℕ → Context D → Context D
  destroy_pointer wl i c = elim (get_elem? c.seats i) [
    | none ↦ c
    | some s ↦ elim s.pointer [
      | none ↦ c
      | some p ↦
          put_seat i (record s { pointer = none })
            (send
              (if leb wl.pointer_release_since p.version
                then release_pointer p
                else destroy_pointer_proxy p)
              c)
    ]
  ]

  unfoldable pub destroy_keyboard : Headers → ℕ → Context D → Context D
  destroy_keyboard wl i c = elim (get_elem? c.seats i) [
    | none ↦ c
    | some s ↦ elim s.keyboard [
      | none ↦ c
      | some p ↦
          put_seat i (record s { keyboard = none })
            (send
              (if leb wl.keyboard_release_since p.version
                then release_keyboard p
                else destroy_keyboard_proxy p)
              c)
    ]
  ]

  unfoldable pub destroy_seat_proxy : Headers → ℕ → Context D → Context D
  destroy_seat_proxy wl i c = elim (get_elem? c.seats i) [
    | none ↦ c
    | some s ↦ elim s.seat [
      | none ↦ c
      | some p ↦
          put_seat i (record s { seat = none })
            (send (if leb wl.seat_release_since p.version then release_seat p else destroy_seat p)
              c)
    ]
  ]
