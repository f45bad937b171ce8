-- ===== src/Stress/State.antt =====
-- The state of native/wayland_egl_stress.c, and what libwayland, EGL and OpenGL ES answer to it.
use webos_wayland.Base.{ℕ, ℤ, Bool, true, false, Option, none, some, List, [], ◌∷◌}
use webos_wayland.Wayland.{Proxy}
use webos_wayland.Egl.{Floats}
use webos_wayland.Stress.Settings.{Pacing, frame_pacing, offscreen_pacing, pbuffer_pacing}
use webos_wayland.Stress.Timers.{Driver, Timers}
use webos_wayland.Stress.Draws.{Load, Command}

-- What the client asks for, but for the calls of the GPU timers.
pub data Effect : Type 0 where
  draws : List Command → Effect
  request_frame : Option Proxy → Effect
  destroy_callback : Proxy → Effect
  swap_buffers : Effect
  resize_window : Proxy → ℤ → ℤ → Effect
  viewport : ℤ → ℤ → Effect
  set_opaque : ℤ → ℤ → Effect

-- The part of `struct app` that frames, visibility, size and input are about; `warmup_sec` is
-- `timers.warmup`, the number of recorded samples of a list is its length, and a texture or a
-- framebuffer 0 is none. `theme` only counts up from 0.
pub record App (double : Floats) : Type 0 where
  pub pacing : Pacing
  pub load : Load
  pub timers : Timers double
  pub compositor : Option Proxy
  pub surface : Option Proxy
  pub frame_cb : Option Proxy
  pub egl_window : Option Proxy
  pub egl_context : Option ℕ
  pub fbo : ℕ
  pub multipass_texture_b : ℕ
  pub source_texture : ℕ
  pub target_texture : ℕ
  pub width : ℤ
  pub height : ℤ
  pub force_4k : Bool
  pub running : Bool
  pub render_visible : Bool
  pub frame : ℕ
  pub presented : ℕ
  pub measured_frames : ℕ
  pub measured_presented : ℕ
  pub theme : ℕ
  pub pointer_x : ℤ
  pub pointer_y : ℤ
  pub start_sec : double.F
  pub duration_sec : double.F
  pub last_callback_sec : double.F
  pub submit_samples : List double.F
  pub draw_samples : List double.F
  pub query_samples : List double.F
  pub swap_samples : List double.F
  pub frame_samples : List double.F
  pub callback_samples : List double.F
  pub done : List Effect

-- What libwayland, EGL and OpenGL ES answer within one event, and the clock in the order in which it is
-- read.
pub record Answers (double : Floats) : Type 0 where
  pub callback : Option Proxy
  pub swaps : Bool
  pub region : Bool
  pub throttled : Driver
  pub waited : Driver
  pub begun : Driver
  pub ended : Driver
  pub called : double.F
  pub frame_start : double.F
  pub query_start : double.F
  pub timer_start : double.F
  pub query_begun : double.F
  pub draw_start : double.F
  pub draw_end : double.F
  pub query_ending : double.F
  pub query_end : double.F
  pub swap_start : double.F
  pub swap_end : double.F
  pub frame_end : double.F

abbrev pub is_offscreen : Pacing → Bool
is_offscreen p = elim p [ offscreen_pacing ↦ true | pbuffer_pacing ↦ true | _ ↦ false ]

abbrev pub is_frame : Pacing → Bool
is_frame p = elim p [ frame_pacing ↦ true | _ ↦ false ]

abbrev pub drop_callback : Option Proxy → List Effect
drop_callback none = []
drop_callback (some cb) = destroy_callback cb ∷ []
