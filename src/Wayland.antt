-- ===== src/Wayland.antt =====
-- What the clients see of libwayland: proxies, and the constants of its generated headers.
use webos_wayland.Base.{ℕ, ℤ}

-- A `wl_proxy`: which object it is, and `wl_proxy_get_version` of it.
pub record Proxy : Type 0 where
  pub id : ℕ
  pub version : ℕ

-- The macros and the inline function of the Wayland headers that native/webos_input.c uses. They
-- are not in the repository, so they are parameters.
pub record Headers : Type 0 where
  -- WL_POINTER_RELEASE_SINCE_VERSION and its like
  pub pointer_release_since : ℕ
  pub keyboard_release_since : ℕ
  pub seat_release_since : ℕ
  -- WL_SEAT_CAPABILITY_POINTER and WL_SEAT_CAPABILITY_KEYBOARD
  pub capability_pointer : ℕ
  pub capability_keyboard : ℕ
  -- wl_fixed_to_int
  pub fixed_to_int : ℤ → ℤ
