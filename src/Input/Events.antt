-- ===== src/Input/Events.antt =====
-- native/webos_input.c, lines 7 to 20 and 80 to 356: the listeners of pointers, keyboards and seats.
-- Each is given its slot, and what a request of it returned. `pointer_axis`, `keyboard_keymap`,
-- `keyboard_modifiers` and `seat_name` change no state, so they are left out.
use webos_wayland.Base.{
  ℕ, ◌+◌, ℤ, Bool, true, false, not, ◌&&◌, Option, none, some, if◌then◌else◌, leb, ◌==◌, get_elem?,
  set, call_if_set, u32, sub32, bit_and, is_some,
}
use webos_wayland.Wayland.{Proxy, Headers}
use webos_wayland.Input.{Context, get_pointer, get_keyboard}
use webos_wayland.Input.Focus.{
  put_seat, send, clear_pointer_focus, clear_keyboard_focus, destroy_pointer, destroy_keyboard,
}

-- INPUT_DUPLICATE_WINDOW_MS
abbrev pub duplicate_window_ms : ℕ
duplicate_window_ms = 20

unfoldable pub recent_duplicate : ℕ → ℕ → ℕ → ℕ → ℕ → ℕ → Bool → Bool
recent_duplicate time previous_time value previous_value state previous_state have_previous =
    have_previous
    && (value == previous_value)
    && (state == previous_state)
    && leb (sub32 time previous_time) duplicate_window_ms

abbrev pub has_capability : ℕ → ℕ → Bool
has_capability caps mask = not (bit_and caps mask == 0)

module _ {D : Type 0} where
  unfoldable pub pointer_enter : Headers → ℕ → ℤ → ℤ → Context D → Context D
  pointer_enter wl i sx sy c = elim (get_elem? c.seats i) [
    | none ↦ c
    | some s ↦ record c {
      seats = set c.seats i (record s {
        pointer_x = wl.fixed_to_int sx;
        pointer_y = wl.fixed_to_int sy;
        pointer_focused = true;
      });
      pointer_focus_count =
          if s.pointer_focused then c.pointer_focus_count else u32 (c.pointer_focus_count + 1);
      client =
          call_if_set c.callbacks.pointer_enter
            (λ f. f c.client (wl.fixed_to_int sx) (wl.fixed_to_int sy)) c.client;
    }
  ]

  unfoldable pub pointer_leave : ℕ → Context D → Context D
  unfolding clear_pointer_focus
  pointer_leave i c = clear_pointer_focus i c

  unfoldable pub pointer_motion : Headers → ℕ → ℤ → ℤ → Context D → Context D
  pointer_motion wl i sx sy c = elim (get_elem? c.seats i) [
    | none ↦ c
    | some s ↦ record c {
      seats =
          set c.seats i
            (record s { pointer_x = wl.fixed_to_int sx; pointer_y = wl.fixed_to_int sy });
      client =
          call_if_set c.callbacks.pointer_motion
            (λ f. f c.client (wl.fixed_to_int sx) (wl.fixed_to_int sy)) c.client;
    }
  ]

  unfoldable pub pointer_button : ℕ → ℕ → ℕ → ℕ → Context D → Context D
  pointer_button i time button state c = elim (get_elem? c.seats i) [
    | none ↦ c
    | some s ↦
        if recent_duplicate time c.last_button_time button c.last_button state c.last_button_state
          c.have_last_button
        then c
        else record c {
          last_button_time = time;
          last_button = button;
          last_button_state = state;
          have_last_button = true;
          client =
              call_if_set c.callbacks.pointer_button
                (λ f. f c.client button state s.pointer_x s.pointer_y) c.client;
        }
  ]

  unfoldable pub keyboard_enter : ℕ → Context D → Context D
  keyboard_enter i c = elim (get_elem? c.seats i) [
    | none ↦ c
    | some s ↦
        let n =
          if s.keyboard_focused then c.keyboard_focus_count else u32 (c.keyboard_focus_count + 1) in
        record c {
          seats = set c.seats i (record s { keyboard_focused = true });
          keyboard_focus_count = n;
          client =
              if n == 1
              then call_if_set c.callbacks.keyboard_focus (λ f. f c.client true) c.client
              else c.client;
        }
  ]

  unfoldable pub keyboard_leave : ℕ → Context D → Context D
  unfolding clear_keyboard_focus
  keyboard_leave i c = clear_keyboard_focus i c

  -- the slot is named in log lines only
  unfoldable pub keyboard_key : ℕ → ℕ → ℕ → ℕ → Context D → Context D
  keyboard_key i time key state c =
      if recent_duplicate time c.last_key_time key c.last_key state c.last_key_state c.have_last_key
      then c
      else record c {
        last_key_time = time;
        last_key = key;
        last_key_state = state;
        have_last_key = true;
        client = call_if_set c.callbacks.keyboard_key (λ f. f c.client key state) c.client;
      }

  -- `wl_seat_get_pointer` made `made`, which is logged if it is not null.
  unfoldable pub attach_pointer : ℕ → Option Proxy → Context D → Context D
  attach_pointer i made c = elim (get_elem? c.seats i) [
    | none ↦ c
    | some s ↦
        put_seat i (record s { pointer = made })
          (elim made [ none ↦ c | some p ↦ send (get_pointer p) c ])
  ]

  unfoldable pub attach_keyboard : ℕ → Option Proxy → Context D → Context D
  attach_keyboard i made c = elim (get_elem? c.seats i) [
    | none ↦ c
    | some s ↦
        put_seat i (record s { keyboard = made })
          (elim made [ none ↦ c | some p ↦ send (get_keyboard p) c ])
  ]

  unfoldable pub has_pointer : ℕ → Context D → Bool
  has_pointer i c = elim (get_elem? c.seats i) [ none ↦ false | some s ↦ is_some s.pointer ]

  unfoldable pub has_keyboard : ℕ → Context D → Bool
  has_keyboard i c = elim (get_elem? c.seats i) [ none ↦ false | some s ↦ is_some s.keyboard ]

  -- the first `if` of `seat_capabilities`, and the second
  unfoldable pub update_pointer : Headers → ℕ → ℕ → Option Proxy → Context D → Context D
  update_pointer wl i caps made c =
      if has_capability caps wl.capability_pointer
      then (if has_pointer i c then c else attach_pointer i made c)
      else destroy_pointer wl i (clear_pointer_focus i c)

  unfoldable pub update_keyboard : Headers → ℕ → ℕ → Option Proxy → Context D → Context D
  update_keyboard wl i caps made c =
      if has_capability caps wl.capability_keyboard
      then (if has_keyboard i c then c else attach_keyboard i made c)
      else destroy_keyboard wl i (clear_keyboard_focus i c)

  unfoldable pub seat_capabilities :
      Headers → ℕ → ℕ → Option Proxy → Option Proxy → Context D → Context D
  seat_capabilities wl i caps pointer keyboard c =
      update_keyboard wl i caps keyboard (update_pointer wl i caps pointer c)
