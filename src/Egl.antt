-- ===== src/Egl.antt =====
-- native/wayland_egl.c: the renderer that draws a triangle with the GPU. `Egl` holds its state,
-- `Egl.Config`, `Egl.Program` and `Egl.Setup` how it starts and ends, `Egl.Latency`, `Egl.Frame` and
-- `Egl.Ui` what it does in its loop, `Egl.Trace` the loop. The other children are the proofs.
pub mod Config
pub mod Best
pub mod Latency
pub mod Frame
pub mod Program
pub mod Setup
pub mod Trace
pub mod Keeps
pub mod Bounds
pub mod Kinds
pub mod Accounts
pub mod Making
pub mod Display
pub mod Opening
pub mod Begin
pub mod Lifetime
pub mod Hidden
pub mod Registry
pub mod Percentiles
pub mod Ui
pub mod Sample
mod Tests
use webos_wayland.Base.{ℕ, ℤ, Option, Bool, List, String}
use webos_wayland.Wayland.{Proxy}
use webos_wayland.Egl.Config.{Config as EglConfig}

-- The floating-point numbers of the C compiler, which are not in the repository: `float` and
-- `double` are two of these.
pub record Floats : Type 1 where
  pub F : Type 0
  -- a literal: `decimal n k` is the number nearest to n / 10 ^ k
  pub decimal : ℤ → ℕ → F
  pub of_int : ℤ → F
  pub add : F → F → F
  pub sub : F → F → F
  pub mul : F → F → F
  pub div : F → F → F
  -- `<`
  pub lt : F → F → Bool
  -- `(size_t)x`
  pub to_size : F → ℕ

-- What the renderer asks of EGL, OpenGL ES and libwayland, in order.
pub data Effect (float : Floats) : Type 0 where
  create_shader : ℕ → Effect float
  delete_shader : ℕ → Effect float
  create_program : ℕ → Effect float
  delete_program : ℕ → Effect float
  make_buffer : ℕ → Effect float
  delete_buffer : ℕ → Effect float
  create_window : Proxy → Effect float
  resize_window : Proxy → ℤ → ℤ → Effect float
  destroy_window : Proxy → Effect float
  create_context : ℕ → Effect float
  destroy_context : ℕ → Effect float
  create_surface : ℕ → Effect float
  destroy_surface : ℕ → Effect float
  release_current : Effect float
  terminate : Effect float
  viewport : ℤ → ℤ → Effect float
  clear : float.F → float.F → float.F → Effect float
  use_program : ℕ → Effect float
  bind_buffer : ℕ → Effect float
  enable_attribute : ℤ → Effect float
  uniform_angle : float.F → Effect float
  uniform_offset : float.F → float.F → Effect float
  uniform_color : float.F → float.F → float.F → Effect float
  draw_triangle : Effect float
  disable_attribute : ℤ → Effect float
  set_opaque : ℤ → ℤ → Effect float
  request_frame : Option Proxy → Effect float
  destroy_callback : Proxy → Effect float
  swap_buffers : Effect float
  destroy_proxy : Proxy → Effect float
  disconnect : Effect float

-- `struct app`, less the display connection and less `input` and `webos_shell`, which are
-- `Input.Context` and `Shell.ShellContext` with this record as their client. A list of samples is
-- null or what was recorded in it, so its count is its length; a GL name 0 is none. `frame` and
-- `theme` only count up from 0. `done` is what was asked so far.
pub record App (float double : Floats) : Type 0 where
  pub compositor : Option Proxy
  pub shell : Option Proxy
  pub surface : Option Proxy
  pub shell_surface : Option Proxy
  pub frame_cb : Option Proxy
  pub egl_window : Option Proxy
  pub egl_display : Option ℕ
  pub egl_context : Option ℕ
  pub egl_surface : Option ℕ
  pub egl_config : Option EglConfig
  pub program : ℕ
  pub vbo : ℕ
  pub attr_pos : ℤ
  pub uni_angle : ℤ
  pub uni_offset : ℤ
  pub uni_color : ℤ
  pub width : ℤ
  pub height : ℤ
  pub running : Bool
  pub render_visible : Bool
  pub frame : ℕ
  pub theme : ℕ
  pub color_mode : String
  pub pointer_x : ℤ
  pub pointer_y : ℤ
  pub have_pointer : Bool
  pub offset_x : float.F
  pub offset_y : float.F
  pub first_frame_time : ℕ
  pub animation_time : float.F
  pub have_frame_time : Bool
  pub latency_trace : Bool
  pub input_serial : ℕ
  pub rendered_input_serial : ℕ
  pub last_input_sec : double.F
  pub last_callback_sec : double.F
  pub callback_intervals : Option (List double.F)
  pub input_submit_samples : Option (List double.F)
  pub input_swap_samples : Option (List double.F)
  pub input_callback_samples : Option (List double.F)
  pub done : List (Effect float)
