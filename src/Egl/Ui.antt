-- ===== src/Egl/Ui.antt =====
-- native/wayland_egl.c, lines 592 to 686: what the remote does.
use webos_wayland.Base.{
  ℕ, ◌+◌, ◌%◌, ◌^◌, ℤ, pos, negsuc, Bool, true, false, ◌&&◌, ◌||◌, some, if◌then◌else◌, ◌==◌, ltb_ℤ,
}
use webos_wayland.Input.{Callbacks}
use webos_wayland.Rect.Ui.{
  Pressed, left_button, key_esc, key_enter, key_up, key_left, key_right, key_down, key_back,
}
use webos_wayland.Egl.{Floats, App}

module _ (float double : Floats) where
  -- the arrival of an input at the time `now`; `input_serial` is an `unsigned long long`
  abbrev pub note_input : double.F → App float double → App float double
  note_input now a = record a { last_input_sec = now; input_serial = (a.input_serial + 1) % 2 ^ 64 }

  unfoldable pub pointer_enter : double.F → App float double → ℤ → ℤ → App float double
  pointer_enter now a x y =
      note_input now (record a { have_pointer = true; pointer_x = x; pointer_y = y })

  unfoldable pub pointer_leave : App float double → App float double
  pointer_leave a = record a { have_pointer = false }

  unfoldable pub pointer_motion : double.F → App float double → ℤ → ℤ → App float double
  pointer_motion now a x y =
      note_input now (record a { have_pointer = true; pointer_x = x; pointer_y = y })

  -- the triangle goes to the point that was clicked
  unfoldable pub move_to : ℤ → ℤ → App float double → App float double
  move_to x y a =
      let two = float.decimal (pos 20) 1 in
      let one = float.decimal (pos 10) 1 in
      if ltb_ℤ (pos 0) a.width && ltb_ℤ (pos 0) a.height
      then record a {
        offset_x =
            float.sub (float.mul (float.div (float.of_int x) (float.of_int a.width)) two) one;
        offset_y =
            float.sub one (float.mul (float.div (float.of_int y) (float.of_int a.height)) two);
      }
      else a

  unfoldable pub pointer_button :
      Pressed → double.F → App float double → ℕ → ℕ → ℤ → ℤ → App float double
  unfolding move_to
  pointer_button wl now a button state x y =
      let b = record a { pointer_x = x; pointer_y = y } in
      if button == left_button && (state == wl.button)
      then note_input now (move_to x y (record b { theme = a.theme + 1 }))
      else b

  -- It only logs.
  unfoldable pub keyboard_focus : App float double → Bool → App float double
  keyboard_focus a focused = a

  -- 0.08, 0.85 and -0.85
  abbrev pub step : float.F
  step = float.decimal (pos 8) 2

  abbrev pub highest : float.F
  highest = float.decimal (pos 85) 2

  abbrev pub lowest : float.F
  lowest = float.decimal (negsuc 84) 2

  -- lines 671 to 674, for one of the offsets
  unfoldable pub limited : float.F → float.F
  limited x =
      let y = if float.lt x lowest then lowest else x in if float.lt highest y then highest else y

  -- lines 659 to 669
  unfoldable pub key_moves : ℕ → App float double → App float double
  key_moves key a =
      if key == key_enter
      then record a { theme = a.theme + 1 }
      else if key == key_left
      then record a { offset_x = float.sub a.offset_x step }
      else if key == key_right
      then record a { offset_x = float.add a.offset_x step }
      else if key == key_up
      then record a { offset_y = float.add a.offset_y step }
      else if key == key_down
      then record a { offset_y = float.sub a.offset_y step }
      else a

  unfoldable pub keyboard_key : Pressed → double.F → App float double → ℕ → ℕ → App float double
  unfolding key_moves limited
  keyboard_key wl now a key state =
      if state == wl.key
      then (let b = note_input now a in
          if key == key_esc || (key == key_back)
          then record b { running = false }
          else let c = key_moves key b in
            record c { offset_x = limited c.offset_x; offset_y = limited c.offset_y })
      else a

  -- The callbacks within one event, which reads the clock once.
  unfoldable pub input_callbacks : Pressed → double.F → Callbacks (App float double)
  input_callbacks wl now = record {
    pointer_enter = some (pointer_enter now);
    pointer_leave = some pointer_leave;
    pointer_motion = some (pointer_motion now);
    pointer_button = some (pointer_button wl now);
    keyboard_focus = some keyboard_focus;
    keyboard_key = some (keyboard_key wl now);
  }
