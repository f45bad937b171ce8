-- ===== src/Shell.antt =====
-- native/webos_shell.c and webos_shell.h: the surface's life under the webOS shell.
-- `Shell` holds the state, `Shell.Events` the listeners, `Shell.Setup` the rest of the operations.
pub mod Events
pub mod Setup
pub mod Exposed
pub mod Trace
pub mod Visibility
pub mod Lifetime
mod Tests
use webos_wayland.Base.{ℕ, Option, Bool, List, String}
use webos_wayland.Wayland.{Proxy}

-- The constants of wayland-webos-shell-client-protocol.h, which the build takes from the webOS SDK.
pub record ShellHeaders : Type 0 where
  -- WL_WEBOS_SHELL_SURFACE_STATE_DEFAULT, _MINIMIZED and _FULLSCREEN
  pub state_default : ℕ
  pub state_minimized : ℕ
  pub state_fullscreen : ℕ
  -- WL_WEBOS_SHELL_SURFACE_WEBOS_KEY_DEFAULT, _BACK and _EXIT
  pub key_default : ℕ
  pub key_back : ℕ
  pub key_exit : ℕ

-- What the component asks of libwayland, in order.
pub data Request : Type 0 where
  bind_shell : Proxy → Request
  get_shell_surface : Proxy → Request
  add_listener : Proxy → Request
  set_property : Proxy → String → String → Request
  set_key_mask : Proxy → ℕ → Request
  set_state : Proxy → ℕ → Request
  destroy_surface : Proxy → Request
  destroy_shell : Proxy → Request

-- `struct webos_shell_context`. `client` is the object behind `data`, `sent` the requests so far.
pub record ShellContext (D : Type 0) : Type 0 where
  pub global : Option Proxy
  pub surface : Option Proxy
  pub client : D
  pub visibility_handler : Option (D → Bool → D)
  pub close_handler : Option (D → D)
  pub registry_name : ℕ
  pub version : ℕ
  pub state : ℕ
  pub state_visible : Bool
  pub exposed_visible : Bool
  pub have_exposed : Bool
  pub effective_visible : Bool
  pub sent : List Request
