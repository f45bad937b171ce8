-- ===== src/Stress/Trace.antt =====
-- The loop of `main` in native/wayland_egl_stress.c as one machine.
use webos_wayland.Base.{ℤ, ◌≡◌, Bool, false, some}
use webos_wayland.Wayland.{Proxy}
use webos_wayland.Rect.Ui.{Pressed}
use webos_wayland.Rect.Trace.{Remote, enter, leave, motion, button, focus, key}
use webos_wayland.Egl.{Floats}
use webos_wayland.Stress.State.{App, Answers, is_frame}
use webos_wayland.Stress.Frame.{
  render, visibility_changed, close_requested, frame_done, shell_configure,
}
use webos_wayland.Stress.Ui.{
  pointer_enter, pointer_leave, pointer_motion, pointer_button, keyboard_focus, keyboard_key,
}

-- What happens in the loop: a round of the second loop begins with a frame of its own, all else is
-- dispatched.
pub data Event (double : Floats) : Type 0 where
  tick : Answers double → Event double
  frame : Answers double → Proxy → Event double
  visibility : Answers double → Bool → Event double
  close : Event double
  configure : Answers double → ℤ → ℤ → Event double
  remote : Remote → Event double

module _ (double : Floats) where
  unfoldable pub use_remote : Pressed → Remote → App double → App double
  use_remote wl (enter x y) a = pointer_enter double a x y
  use_remote wl leave a = pointer_leave double a
  use_remote wl (motion x y) a = pointer_motion double a x y
  use_remote wl (button b state x y) a = pointer_button double wl a b state x y
  use_remote wl (focus on) a = keyboard_focus double a on
  use_remote wl (key k state) a = keyboard_key double wl a k state

  unfoldable pub handle : Pressed → Event double → App double → App double
  handle wl (tick r) a = render double r a
  handle wl (frame r cb) a = frame_done double r (some cb) a
  handle wl (visibility r visible) a = visibility_changed double r visible a
  handle wl close a = close_requested double a
  handle wl (configure r width height) a = shell_configure double r width height a
  handle wl (remote e) a = use_remote wl e a

  -- libwayland calls `frame_done` with a callback that was made and not yet destroyed, and the second
  -- loop runs under another pacing than STRESS_PACING_FRAME.
  abbrev pub CanArrive : Event double → App double → Type 0
  CanArrive (tick r) a = is_frame a.pacing ≡ false
  CanArrive (frame r cb) a = a.frame_cb ≡ some cb
  CanArrive _ a = Unit {0}

  -- The apps that the loop passes through.
  pub data Reach (wl : Pressed) (first : App double) : App double → Type 0 where
    here : Reach wl first first
    next :
        {a : App double} (e : Event double)
        → Reach wl first a
        → CanArrive e a
        → Reach wl first (handle wl e a)
