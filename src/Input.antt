-- ===== src/Input.antt =====
-- native/webos_input.c and webos_input.h: input from every seat, with one focus and no duplicates.
-- `Input` holds the state, `Input.Focus`, `Input.Events` and `Input.Registry` the operations, the
-- other children the proofs.
pub mod Focus
pub mod Events
pub mod Registry
pub mod Invariant
pub mod Preserve
pub mod Slots
pub mod Trace
pub mod Capabilities
pub mod Step
pub mod Ledger
pub mod Balance
pub mod Isolation
pub mod Lifetime
pub mod Destroy
pub mod Observer
pub mod Dedupe
pub mod Bind
mod Tests
use webos_wayland.Base.{ℕ, ℤ, Option, Bool, List, String}
use webos_wayland.Wayland.{Proxy}

-- WEBOS_INPUT_MAX_SEATS
abbrev pub max_seats : ℕ
max_seats = 8

-- A client's functions over its own state `D`, the object that `data` points to. Each may be null.
pub record Callbacks (D : Type 0) : Type 0 where
  pub pointer_enter : Option (D → ℤ → ℤ → D)
  pub pointer_leave : Option (D → D)
  pub pointer_motion : Option (D → ℤ → ℤ → D)
  pub pointer_button : Option (D → ℕ → ℕ → ℤ → ℤ → D)
  pub keyboard_focus : Option (D → Bool → D)
  pub keyboard_key : Option (D → ℕ → ℕ → D)

-- `struct webos_input_seat`, less the pointer back to its context.
pub record InputSeat : Type 0 where
  pub seat : Option Proxy
  pub pointer : Option Proxy
  pub keyboard : Option Proxy
  pub registry_name : ℕ
  pub index : ℕ
  pub pointer_x : ℤ
  pub pointer_y : ℤ
  pub pointer_focused : Bool
  pub keyboard_focused : Bool

-- What the component asks of libwayland, in order.
pub data Request : Type 0 where
  bind_seat : Proxy → Request
  get_pointer : Proxy → Request
  get_keyboard : Proxy → Request
  release_pointer : Proxy → Request
  destroy_pointer : Proxy → Request
  release_keyboard : Proxy → Request
  destroy_keyboard : Proxy → Request
  release_seat : Proxy → Request
  destroy_seat : Proxy → Request

-- `struct webos_input_context`. `client` is the object behind `data`, and `sent` the requests so
-- far; the file's lines on stderr are left out.
pub record Context (D : Type 0) : Type 0 where
  pub seats : List InputSeat
  pub callbacks : Callbacks D
  pub client : D
  pub seat_count : ℕ
  pub pointer_focus_count : ℕ
  pub keyboard_focus_count : ℕ
  pub last_key_time : ℕ
  pub last_key : ℕ
  pub last_key_state : ℕ
  pub last_button_time : ℕ
  pub last_button : ℕ
  pub last_button_state : ℕ
  pub have_last_key : Bool
  pub have_last_button : Bool
  pub sent : List Request
