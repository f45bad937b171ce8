-- ===== src/Rect.antt =====
-- native/wayland_rect.c: the renderer that paints into shared memory on the CPU.
-- `Rect` holds the state; `Rect.Raster`, `Rect.Paint`, `Rect.Buffers`, `Rect.Frame`, `Rect.Ui` and
-- `Rect.Registry` the operations, the other children the proofs.
pub mod Raster
pub mod Paint
pub mod Picture
pub mod Buffers
pub mod Frame
pub mod Ui
pub mod Pixels
pub mod Pool
pub mod Init
pub mod Choice
pub mod Trace
pub mod Accounts
pub mod Lifetime
pub mod Still
pub mod Hidden
pub mod Grid
pub mod Size
pub mod Stall
pub mod Drag
pub mod Registry
pub mod Parts
mod Tests
use webos_wayland.Base.{ℕ, ℤ, Option, Bool, List}
use webos_wayland.Wayland.{Proxy}

-- `struct shm_buf`. `pixels` is the memory behind `data`, by `uint32_t`; `init_buffer` never stores
-- MAP_FAILED.
pub record ShmBuf : Type 0 where
  pub wlbuf : Option Proxy
  pub pixels : Option (List ℕ)
  pub size : ℕ
  pub width : ℤ
  pub height : ℤ
  pub busy : Bool

-- NUM_BUFS
abbrev pub num_bufs : ℕ
num_bufs = 3

-- What the renderer asks of the system and of libwayland, in order. A file descriptor or a mapping
-- is not named: `init_buffer` has one of each at a time. `resize_file` is `ftruncate`; a buffer has a
-- width, a height and a stride, and begins where its pool begins.
pub data Effect : Type 0 where
  open_file : Effect
  resize_file : ℕ → Effect
  close_file : Effect
  map_memory : ℕ → Effect
  unmap_memory : ℕ → Effect
  create_pool : ℕ → Effect
  destroy_pool : Effect
  create_buffer : Proxy → ℤ → ℤ → ℕ → Effect
  destroy_buffer : Proxy → Effect
  set_opaque : ℤ → ℤ → Effect
  attach : Option Proxy → Effect
  damage : ℤ → ℤ → Effect
  request_frame : Option Proxy → Effect
  destroy_callback : Proxy → Effect
  commit : Effect
  flush : Effect

-- `struct app`, less the handles that are only passed on, and less `input` and `webos_shell`, which
-- are `Input.Context` and `Shell.ShellContext` with this record as their client. `frame` and `theme`
-- only count up from 0. `done` is what was asked so far.
pub record App : Type 0 where
  pub compositor : Option Proxy
  pub surface : Option Proxy
  pub frame_cb : Option Proxy
  pub bufs : List ShmBuf
  pub width : ℤ
  pub height : ℤ
  pub running : Bool
  pub render_visible : Bool
  pub frame : ℕ
  pub theme : ℕ
  pub android_mode : Bool
  pub android_ready : Bool
  pub win_x : ℤ
  pub win_y : ℤ
  pub pointer_x : ℤ
  pub pointer_y : ℤ
  pub have_pointer : Bool
  pub dragging : Bool
  pub drag_dx : ℤ
  pub drag_dy : ℤ
  pub done : List Effect
