-- ===== src/Rect/Registry.antt =====
-- native/wayland_rect.c, lines 706 to 733: the globals of the compositor, given to their owners.
use webos_wayland.Base.{ℕ, Option, if◌then◌else◌, ltb, String, str_eq}
use webos_wayland.Wayland.{Proxy, Headers}
use webos_wayland.Input.{Context}
use webos_wayland.Input.Registry.{try_bind as try_bind_input, global_remove as global_remove_input}
use webos_wayland.Shell.{ShellContext}
use webos_wayland.Shell.Setup.{try_bind as try_bind_shell, global_remove as global_remove_shell}

-- The parts of `struct app` that the registry fills. Neither component calls its client here.
pub record Globals (D : Type 0) : Type 0 where
  pub compositor : Option Proxy
  pub shm : Option Proxy
  pub shell : Option Proxy
  pub input : Context D
  pub webos_shell : ShellContext D

module _ {D : Type 0} where
  -- `registry_global`. `bind v` is what `wl_registry_bind` returns at version `v`.
  unfoldable pub registry_global : ℕ → String → ℕ → (ℕ → Option Proxy) → Globals D → Globals D
  registry_global name interface version bind a =
      let (is_shell, s) = try_bind_shell name interface version bind a.webos_shell in
      if is_shell
      then record a { webos_shell = s }
      else let (is_seat, i) = try_bind_input name interface version bind a.input in
        if is_seat
        then record a { webos_shell = s; input = i }
        else let a' = record a { webos_shell = s; input = i } in
          if str_eq interface "wl_compositor"
          then record a' { compositor = bind (if ltb version 3 then version else 3) }
          else if str_eq interface "wl_shm"
          then record a' { shm = bind 1 }
          else if str_eq interface "wl_shell"
          then record a' { shell = bind 1 }
          else a'

  -- `registry_remove`
  unfoldable pub registry_remove : Headers → ℕ → Globals D → Globals D
  unfolding global_remove_shell
  registry_remove wl name a = record a {
    input = global_remove_input wl name a.input;
    webos_shell = global_remove_shell name a.webos_shell;
  }
