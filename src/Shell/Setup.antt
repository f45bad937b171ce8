-- ===== src/Shell/Setup.antt =====
-- native/webos_shell.c, lines 115 to 214: the context's life. Each function is given what the
-- requests in it returned.
use webos_wayland.Base.{
  ℕ, Bool, true, false, Option, none, some, [], ◌∷◌, ◌++◌, if◌then◌else◌, ltb, String, str_eq,
  is_some, bit_or,
}
use webos_wayland.Wayland.{Proxy}
use webos_wayland.Shell.{
  ShellHeaders, ShellContext, bind_shell, get_shell_surface, add_listener, set_property,
  set_key_mask, set_state, destroy_surface, destroy_shell,
}

abbrev pub bind_version : ℕ → ℕ
bind_version version = if ltb version 2 then version else 2

module _ {D : Type 0} where
  -- `webos_shell_context_init`
  unfoldable pub context_init :
      ShellHeaders → D → Option (D → Bool → D) → Option (D → D) → ShellContext D
  context_init sh client visibility_handler close_handler = record {
    global = none;
    surface = none;
    client = client;
    visibility_handler = visibility_handler;
    close_handler = close_handler;
    registry_name = 0;
    version = 0;
    state = sh.state_default;
    state_visible = true;
    exposed_visible = true;
    have_exposed = false;
    effective_visible = true;
    sent = [];
  }

  -- `webos_shell_try_bind`; `bind v` is what `wl_registry_bind` returns at version `v`.
  unfoldable pub try_bind :
      ℕ → String → ℕ → (ℕ → Option Proxy) → ShellContext D → Bool × ShellContext D
  try_bind name interface version bind c =
      if str_eq interface "wl_webos_shell"
      then (if is_some c.global
          then (true, c)
          else (if ltb (bind_version version) 1
              then (true, c)
              else elim (bind (bind_version version)) [
                | none ↦ (true, record c { global = none })
                | some p ↦ (
                  true,
                  record c {
                    global = some p;
                    registry_name = name;
                    version = bind_version version;
                    sent = c.sent ++ (bind_shell p ∷ []);
                  },
                )
              ]))
      else (false, c)

  -- `webos_shell_attach`; `made` is what `wl_webos_shell_get_shell_surface` returns, and `listens`
  -- says that adding the listener did not fail.
  unfoldable pub attach :
      ShellHeaders → String → Option Proxy → Bool → ShellContext D → Bool × ShellContext D
  attach sh app_id made listens c = elim c.global [
    | none ↦ (false, c)
    | some g ↦ elim made [
      | none ↦ (false, record c { surface = none })
      | some s ↦
          if listens
          then (
            true,
            record c {
              surface = some s;
              sent =
                  c.sent
                  ++ (get_shell_surface s
                      ∷ add_listener s
                      ∷ set_property s "appId" app_id
                      ∷ set_property s "displayAffinity" "0"
                      ∷ set_key_mask s (bit_or (bit_or sh.key_default sh.key_back) sh.key_exit)
                      ∷ set_state s sh.state_fullscreen
                      ∷ []);
            },
          )
          else (
            false,
            record c {
              surface = none;
              sent = c.sent ++ (get_shell_surface s ∷ add_listener s ∷ destroy_surface s ∷ []);
            },
          )
    ]
  ]

  -- `webos_shell_global_remove` only logs.
  unfoldable pub global_remove : ℕ → ShellContext D → ShellContext D
  global_remove name c = c

  unfoldable pub destroy_shell_surface : ShellContext D → ShellContext D
  destroy_shell_surface c = elim c.surface [
    | none ↦ c
    | some s ↦ record c { surface = none; sent = c.sent ++ (destroy_surface s ∷ []) }
  ]

  unfoldable pub destroy_global : ShellContext D → ShellContext D
  destroy_global c = elim c.global [
    | none ↦ c
    | some g ↦ record c { global = none; sent = c.sent ++ (destroy_shell g ∷ []) }
  ]

  -- `webos_shell_context_destroy`, an `if` at a time
  unfoldable pub context_destroy : ShellContext D → ShellContext D
  unfolding destroy_shell_surface destroy_global
  context_destroy c = destroy_global (destroy_shell_surface c)
