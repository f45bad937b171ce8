-- ===== src/Egl/Trace.antt =====
-- The loop of `main` in native/wayland_egl.c as one machine.
use webos_wayland.Base.{ℕ, ℤ, ◌≡◌, Bool, some}
use webos_wayland.Wayland.{Proxy}
use webos_wayland.Rect.Ui.{Pressed}
use webos_wayland.Rect.Trace.{Remote, enter, leave, motion, button, focus, key}
use webos_wayland.Egl.{Floats, App}
use webos_wayland.Egl.Frame.{
  Answers, visibility_changed, close_requested, frame_done, shell_configure,
}
use webos_wayland.Egl.Ui.{
  pointer_enter, pointer_leave, pointer_motion, pointer_button, keyboard_focus, keyboard_key,
}

-- What the loop dispatches. A call by webos_input.c comes at a time.
pub data Event (double : Floats) : Type 0 where
  frame : Answers double → Proxy → ℕ → Event double
  visibility : Answers double → Bool → Event double
  close : Event double
  configure : Answers double → ℤ → ℤ → Event double
  remote : double.F → Remote → Event double

module _ (float double : Floats) where
  unfoldable pub use_remote : Pressed → double.F → Remote → App float double → App float double
  use_remote wl now (enter x y) a = pointer_enter float double now a x y
  use_remote wl now leave a = pointer_leave float double a
  use_remote wl now (motion x y) a = pointer_motion float double now a x y
  use_remote wl now (button b state x y) a = pointer_button float double wl now a b state x y
  use_remote wl now (focus on) a = keyboard_focus float double a on
  use_remote wl now (key k state) a = keyboard_key float double wl now a k state

  unfoldable pub handle : Pressed → Event double → App float double → App float double
  handle wl (frame r cb time) a = frame_done float double r (some cb) time a
  handle wl (visibility r visible) a = visibility_changed float double r visible a
  handle wl close a = close_requested float double a
  handle wl (configure r width height) a = shell_configure float double r width height a
  handle wl (remote now e) a = use_remote wl now e a

  -- libwayland calls `frame_done` with a callback that was made and not yet destroyed.
  abbrev pub CanArrive : Event double → App float double → Type 0
  CanArrive (frame r cb time) a = a.frame_cb ≡ some cb
  CanArrive _ a = Unit {0}

  -- The apps that the loop passes through.
  pub data Reach (wl : Pressed) (first : App float double) : App float double → Type 0 where
    here : Reach wl first first
    next :
        {a : App float double} (e : Event double)
        → Reach wl first a
        → CanArrive e a
        → Reach wl first (handle wl e a)
