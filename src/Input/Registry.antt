-- ===== src/Input/Registry.antt =====
-- native/webos_input.c, lines 358 to 435: the context's life, and seats that come and go.
use webos_wayland.Base.{
  ℕ, suc, zero, ◌+◌, pos, Bool, true, false, ◌&&◌, Option, none, some, [], ◌∷◌, List, if◌then◌else◌,
  ltb, ◌==◌, get_elem?, replicate, u32, is_some, String, str_eq,
}
use webos_wayland.Wayland.{Proxy, Headers}
use webos_wayland.Input.{Callbacks, InputSeat, Context, bind_seat, max_seats}
use webos_wayland.Input.Focus.{
  put_seat, send, clear_pointer_focus, clear_keyboard_focus, destroy_pointer, destroy_keyboard,
  destroy_seat_proxy,
}

-- a slot after `memset`
abbrev pub blank : InputSeat
blank = record {
  seat = none;
  pointer = none;
  keyboard = none;
  registry_name = 0;
  index = 0;
  pointer_x = pos 0;
  pointer_y = pos 0;
  pointer_focused = false;
  keyboard_focused = false;
}

abbrev pub no_callbacks : {D : Type 0} → Callbacks D
no_callbacks = record {
  pointer_enter = none;
  pointer_leave = none;
  pointer_motion = none;
  pointer_button = none;
  keyboard_focus = none;
  keyboard_key = none;
}

-- The first slot, counted from `i`, whose test holds.
unfoldable pub find_slot : (InputSeat → Bool) → ℕ → List InputSeat → Option ℕ
find_slot test i [] = none
find_slot test i (s ∷ ss) = let rest = find_slot test (suc i) ss in if test s then some i else rest

abbrev pub is_free : InputSeat → Bool
is_free s = elim s.seat [ none ↦ true | some p ↦ false ]

abbrev pub is_named : ℕ → InputSeat → Bool
is_named name s = is_some s.seat && (s.registry_name == name)

abbrev pub bind_version : ℕ → ℕ
bind_version version = if ltb version 3 then version else 3

module _ {D : Type 0} where
  unfoldable pub destroy_input_seat : Headers → ℕ → Context D → Context D
  destroy_input_seat wl i c = put_seat i blank (
      destroy_seat_proxy wl i (
        destroy_keyboard wl i
          (destroy_pointer wl i (clear_keyboard_focus i (clear_pointer_focus i c)))))

  -- `webos_input_context_init`; `client` is the object that `data` points to.
  unfoldable pub context_init : D → Option (Callbacks D) → Context D
  context_init client callbacks = record {
    seats = replicate max_seats blank;
    callbacks = elim callbacks [ none ↦ no_callbacks | some f ↦ f ];
    client = client;
    seat_count = 0;
    pointer_focus_count = 0;
    keyboard_focus_count = 0;
    last_key_time = 0;
    last_key = 0;
    last_key_state = 0;
    last_button_time = 0;
    last_button = 0;
    last_button_state = 0;
    have_last_key = false;
    have_last_button = false;
    sent = [];
  }

  -- the writes of `webos_input_try_bind` to the slot that it found
  unfoldable pub fill_slot : ℕ → ℕ → ℕ → Proxy → Context D → Context D
  fill_slot i name index p c = elim (get_elem? c.seats i) [
    | none ↦ c
    | some s ↦ put_seat i (record s { seat = some p; registry_name = name; index = index }) c
  ]

  -- `webos_input_try_bind` from line 401 on: the slot is found, and `bound` is what
  -- `wl_registry_bind` returned. In every case it reports that it took the global.
  unfoldable pub bind_slot : ℕ → ℕ → Option Proxy → Context D → Bool × Context D
  unfolding fill_slot
  bind_slot name i bound c =
      let c' = record c { seat_count = u32 (c.seat_count + 1) } in
      elim bound [
        | none ↦ (true, put_seat i blank c')
        | some p ↦ (true, fill_slot i name c.seat_count p (send (bind_seat p) c'))
      ]

  -- `webos_input_try_bind`. `bind v` is what `wl_registry_bind` returns at version `v`.
  unfoldable pub try_bind : ℕ → String → ℕ → (ℕ → Option Proxy) → Context D → Bool × Context D
  try_bind name interface version bind c =
      if str_eq interface "wl_seat"
      then elim (find_slot is_free 0 c.seats) [
        | none ↦ (true, c)
        | some i ↦ bind_slot name i (bind (bind_version version)) c
      ]
      else (false, c)

  -- `webos_input_global_remove`
  unfoldable pub global_remove : Headers → ℕ → Context D → Context D
  global_remove wl name c = elim (find_slot (is_named name) 0 c.seats) [
    | none ↦ c
    | some i ↦ destroy_input_seat wl i c
  ]

  -- the body of the loop of `webos_input_context_destroy`
  unfoldable pub destroy_if_bound : Headers → ℕ → Context D → Context D
  destroy_if_bound wl i c = elim (get_elem? c.seats i) [
    | none ↦ c
    | some s ↦ if is_some s.seat then destroy_input_seat wl i c else c
  ]

  -- its loop, for the slots `i` to `i + n - 1`
  unfoldable pub destroy_from : Headers → ℕ → ℕ → Context D → Context D
  destroy_from wl zero i c = c
  destroy_from wl (suc n) i c = destroy_from wl n (suc i) (destroy_if_bound wl i c)

  unfoldable pub context_destroy : Headers → Context D → Context D
  context_destroy wl c = destroy_from wl max_seats 0 c
