-- ===== src/Stress/Ui.antt =====
-- native/wayland_egl_stress.c, lines 1588 to 1651: what the remote does to the stress client.
use webos_wayland.Base.{ℕ, ◌+◌, ℤ, Bool, false, ◌&&◌, ◌||◌, some, if◌then◌else◌, ◌==◌}
use webos_wayland.Input.{Callbacks}
use webos_wayland.Rect.Ui.{
  Pressed, left_button, key_esc, key_enter, key_up, key_left, key_right, key_down, key_back,
}
use webos_wayland.Egl.{Floats}
use webos_wayland.Stress.State.{App}

module _ (double : Floats) where
  unfoldable pub pointer_enter : App double → ℤ → ℤ → App double
  pointer_enter a x y = record a { pointer_x = x; pointer_y = y }

  -- It does nothing.
  unfoldable pub pointer_leave : App double → App double
  pointer_leave a = a

  unfoldable pub pointer_motion : App double → ℤ → ℤ → App double
  pointer_motion a x y = record a { pointer_x = x; pointer_y = y }

  unfoldable pub pointer_button : Pressed → App double → ℕ → ℕ → ℤ → ℤ → App double
  pointer_button wl a button state x y =
      let b = record a { pointer_x = x; pointer_y = y } in
      if button == left_button && (state == wl.button) then record b { theme = a.theme + 1 } else b

  -- It only logs.
  unfoldable pub keyboard_focus : App double → Bool → App double
  keyboard_focus a focused = a

  abbrev pub changes_theme : ℕ → Bool
  changes_theme key =
      key == key_enter
      || (key == key_left)
      || (key == key_right)
      || (key == key_up)
      || (key == key_down)

  unfoldable pub keyboard_key : Pressed → App double → ℕ → ℕ → App double
  keyboard_key wl a key state =
      if state == wl.key
      then if key == key_esc || (key == key_back)
        then record a { running = false }
        else if changes_theme key
        then record a { theme = a.theme + 1 }
        else a
      else a

  unfoldable pub input_callbacks : Pressed → Callbacks (App double)
  input_callbacks wl = record {
    pointer_enter = some pointer_enter;
    pointer_leave = some pointer_leave;
    pointer_motion = some pointer_motion;
    pointer_button = some (pointer_button wl);
    keyboard_focus = some keyboard_focus;
    keyboard_key = some (keyboard_key wl);
  }
