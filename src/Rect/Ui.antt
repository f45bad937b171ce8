-- ===== src/Rect/Ui.antt =====
-- native/wayland_rect.c, lines 585 to 704: what the remote does to the window.
use webos_wayland.Base.{
  ℕ, ◌+◌, ℤ, pos, ◌+ℤ◌, ◌-ℤ◌, leb_ℤ, Bool, true, false, ◌&&◌, ◌||◌, some, if◌then◌else◌, ◌==◌,
}
use webos_wayland.Input.{Callbacks}
use webos_wayland.Rect.{App}

-- The constants of the Wayland headers that the handlers compare with:
-- WL_POINTER_BUTTON_STATE_PRESSED and WL_KEYBOARD_KEY_STATE_PRESSED.
pub record Pressed : Type 0 where
  pub button : ℕ
  pub key : ℕ

-- the buttons and keys of the evdev codes
abbrev pub left_button : ℕ
left_button = 272

abbrev pub key_esc : ℕ
key_esc = 1

abbrev pub key_enter : ℕ
key_enter = 28

abbrev pub key_up : ℕ
key_up = 103

abbrev pub key_left : ℕ
key_left = 105

abbrev pub key_right : ℕ
key_right = 106

abbrev pub key_down : ℕ
key_down = 108

abbrev pub key_back : ℕ
key_back = 158

unfoldable pub pointer_enter : App → ℤ → ℤ → App
pointer_enter a x y = record a { have_pointer = true; pointer_x = x; pointer_y = y }

unfoldable pub pointer_leave : App → App
pointer_leave a = record a { have_pointer = false; dragging = false }

unfoldable pub pointer_motion : App → ℤ → ℤ → App
pointer_motion a x y =
    let a' = record a { have_pointer = true; pointer_x = x; pointer_y = y } in
    if a.dragging then record a' { win_x = x -ℤ a.drag_dx; win_y = y -ℤ a.drag_dy } else a'

-- The point lies in the box from `left`, `top` to `right`, `bottom`, measured from the window.
abbrev pub hits : App → ℤ → ℤ → ℕ → ℕ → ℕ → ℕ → Bool
hits a x y left right top bottom =
    leb_ℤ (a.win_x +ℤ pos left) x
    && leb_ℤ x (a.win_x +ℤ pos right)
    && leb_ℤ (a.win_y +ℤ pos top) y
    && leb_ℤ y (a.win_y +ℤ pos bottom)

-- a press of the left button
unfoldable pub press : App → ℤ → ℤ → App
press a x y =
    if hits a x y 12 34 10 34
    then record a { running = false }
    else if hits a x y 38 62 10 34
    then record a { theme = a.theme + 1 }
    else if hits a x y 64 88 10 34
    then record a { theme = a.theme + 1 }
    else if hits a x y 0 500 0 42
    then record a { dragging = true; drag_dx = x -ℤ a.win_x; drag_dy = y -ℤ a.win_y }
    else record a { theme = a.theme + 1 }

unfoldable pub pointer_button : Pressed → App → ℕ → ℕ → ℤ → ℤ → App
unfolding press
pointer_button wl a button state x y =
    let a' = record a { pointer_x = x; pointer_y = y } in
    if button == left_button
    then (if state == wl.button then press a' x y else record a' { dragging = false })
    else a'

-- It only logs.
unfoldable pub keyboard_focus : App → Bool → App
keyboard_focus a focused = a

-- a press of a key
unfoldable pub key_action : App → ℕ → App
key_action a key =
    if key == key_esc || (key == key_back)
    then record a { running = false }
    else if key == key_enter
    then record a { theme = a.theme + 1 }
    else if key == key_left
    then record a { win_x = a.win_x -ℤ pos 45 }
    else if key == key_right
    then record a { win_x = a.win_x +ℤ pos 45 }
    else if key == key_up
    then record a { win_y = a.win_y -ℤ pos 45 }
    else if key == key_down
    then record a { win_y = a.win_y +ℤ pos 45 }
    else a

unfoldable pub keyboard_key : Pressed → App → ℕ → ℕ → App
unfolding key_action
keyboard_key wl a key state = if state == wl.key then key_action a key else a

unfoldable pub input_callbacks : Pressed → Callbacks App
input_callbacks wl = record {
  pointer_enter = some pointer_enter;
  pointer_leave = some pointer_leave;
  pointer_motion = some pointer_motion;
  pointer_button = some (pointer_button wl);
  keyboard_focus = some keyboard_focus;
  keyboard_key = some (keyboard_key wl);
}
