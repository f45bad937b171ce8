-- ===== src/Rect/Trace.antt =====
-- The renderer as one machine: `main` up to its loop, and what the loop dispatches.
use webos_wayland.Base.{ℕ, ℤ, pos, ◌≡◌, Bool, true, false, Option, none, some, [], replicate}
use webos_wayland.Wayland.{Proxy}
use webos_wayland.Rect.{num_bufs, App}
use webos_wayland.Rect.Buffers.{blank, buffer_release, set_surface_opaque}
use webos_wayland.Rect.Frame.{
  Answers, render, visibility_changed, close_requested, frame_done, shell_configure,
}
use webos_wayland.Rect.Ui.{
  Pressed, pointer_enter, pointer_leave, pointer_motion, pointer_button, keyboard_focus,
  keyboard_key,
}

-- what `webos_input.c` calls
pub data Remote : Type 0 where
  enter : ℤ → ℤ → Remote
  leave : Remote
  motion : ℤ → ℤ → Remote
  button : ℕ → ℕ → ℤ → ℤ → Remote
  focus : Bool → Remote
  key : ℕ → ℕ → Remote

pub data Event : Type 0 where
  frame : Answers → Option Proxy → Event
  visibility : Answers → Bool → Event
  close : Event
  configure : Answers → ℤ → ℤ → Event
  release : ℕ → Event
  remote : Remote → Event

unfoldable pub use_remote : Pressed → Remote → App → App
use_remote wl (enter x y) a = pointer_enter a x y
use_remote wl leave a = pointer_leave a
use_remote wl (motion x y) a = pointer_motion a x y
use_remote wl (button b state x y) a = pointer_button wl a b state x y
use_remote wl (focus on) a = keyboard_focus a on
use_remote wl (key k state) a = keyboard_key wl a k state

-- `size_limit` is one more than the largest `size_t`. `none` ends the program.
unfoldable pub handle : ℕ → Pressed → Event → App → Option App
handle size_limit wl (frame r cb) a = frame_done size_limit r cb a
handle size_limit wl (visibility r visible) a = visibility_changed size_limit r visible a
handle size_limit wl close a = some (close_requested a)
handle size_limit wl (configure r width height) a = some (shell_configure r width height a)
handle size_limit wl (release i) a = some (buffer_release i a)
handle size_limit wl (remote e) a = some (use_remote wl e a)

-- The app of `main` when its surface is there (line 801), with no frame rendered yet.
unfoldable pub start : Bool → Proxy → Proxy → App
start android_mode compositor surface = record {
  compositor = some compositor;
  surface = some surface;
  frame_cb = none;
  bufs = replicate num_bufs blank;
  width = pos 1920;
  height = pos 1080;
  running = true;
  render_visible = true;
  frame = 0;
  theme = 0;
  android_mode = android_mode;
  android_ready = false;
  win_x = pos 180;
  win_y = pos 170;
  pointer_x = pos 960;
  pointer_y = pos 540;
  have_pointer = false;
  dragging = false;
  drag_dx = pos 0;
  drag_dy = pos 0;
  done = [];
}

-- `main` from line 814 up to its loop.
unfoldable pub first_frame : ℕ → Answers → App → Option App
first_frame size_limit r a = render size_limit r (set_surface_opaque r.region a)

-- The apps that the loop of `main` passes through, from any first app on.
pub data Reach (size_limit : ℕ) (wl : Pressed) (first : App) : App → Type 0 where
  here : Reach size_limit wl first first
  next :
      {a : App} (e : Event) {a' : App}
      → Reach size_limit wl first a
      → handle size_limit wl e a ≡ some a'
      → Reach size_limit wl first a'
