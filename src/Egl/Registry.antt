-- ===== src/Egl/Registry.antt =====
-- native/wayland_egl.c, lines 688 to 713: the globals of the compositor, given to their owners.
use webos_wayland.Base.{ℕ, ◌≡◌, false, Option, if◌then◌else◌, ltb, String, str_eq, arith}
use webos_wayland.Wayland.{Proxy, Headers}
use webos_wayland.Input.{Context}
use webos_wayland.Input.Registry.{try_bind as try_bind_input, global_remove as global_remove_input}
use webos_wayland.Shell.{ShellContext}
use webos_wayland.Shell.Setup.{try_bind as try_bind_shell, global_remove as global_remove_shell}
use webos_wayland.Rect.Registry.{Globals as RectGlobals, registry_global as rect_registry_global}

-- The parts of `struct app` that the registry fills.
pub record Globals (D : Type 0) : Type 0 where
  pub compositor : Option Proxy
  pub shell : Option Proxy
  pub input : Context D
  pub webos_shell : ShellContext D

module _ {D : Type 0} where
  -- `registry_global`. `bind v` is what `wl_registry_bind` returns at version `v`.
  unfoldable pub registry_global : ℕ → String → ℕ → (ℕ → Option Proxy) → Globals D → Globals D
  registry_global name interface version bind a =
      let (is_shell, s) = try_bind_shell name interface version bind a.webos_shell in
      if is_shell
      then record a { webos_shell = s }
      else let (is_seat, i) = try_bind_input name interface version bind a.input in
        if is_seat
        then record a { webos_shell = s; input = i }
        else let a' = record a { webos_shell = s; input = i } in
          if str_eq interface "wl_compositor"
          then record a' { compositor = bind (if ltb version 3 then version else 3) }
          else if str_eq interface "wl_shell"
          then record a' { shell = bind 1 }
          else a'

  -- `registry_remove`
  unfoldable pub registry_remove : Headers → ℕ → Globals D → Globals D
  registry_remove wl name a = record a {
    input = global_remove_input wl name a.input;
    webos_shell = global_remove_shell name a.webos_shell;
  }

  -- the globals of native/wayland_rect.c without the shared memory
  abbrev pub forget : RectGlobals D → Globals D
  forget a = record {
    compositor = a.compositor;
    shell = a.shell;
    input = a.input;
    webos_shell = a.webos_shell;
  }

  -- But for the shared memory, both renderers give a global to the same owner.
  pub forget-registry_global :
      (name : ℕ) (interface : String) (version : ℕ) (bind : ℕ → Option Proxy) (a : RectGlobals D)
      → str_eq interface "wl_shm" ≡ false
      → forget (rect_registry_global name interface version bind a)
        ≡ registry_global name interface version bind (forget a)
  unfolding registry_global rect_registry_global
  forget-registry_global name interface version bind a h = ground arith
