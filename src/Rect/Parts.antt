-- ===== src/Rect/Parts.antt =====
-- `registry_global` and `registry_remove` of native/wayland_rect.c over a whole conversation with the
-- registry: what each part of the app sees of it.
use webos_wayland.Base.{
  ℕ, ◌≡◌, refl, ◌∙◌, ap, subst, sym, true, false, Option, List, [], ◌∷◌, if◌then◌else◌, ltb, String,
  str_eq, arith, Bool-cases, inl, inr,
}
use text.Mathlib.TextEquality.{eq_iff}
use webos_wayland.Wayland.{Proxy, Headers}
use webos_wayland.Input.{Context}
use webos_wayland.Input.Registry.{
  try_bind as try_bind_input, global_remove as global_remove_input, bind_slot,
}
use webos_wayland.Shell.{ShellContext}
use webos_wayland.Shell.Setup.{try_bind as try_bind_shell, global_remove as global_remove_shell}
use webos_wayland.Rect.Registry.{Globals, registry_global, registry_remove}

-- What the registry tells: a global, with what `wl_registry_bind` would return at each version, or the
-- removal of one.
pub data Notice : Type 0 where
  announced : ℕ → String → ℕ → (ℕ → Option Proxy) → Notice
  withdrawn : ℕ → Notice

-- What a plain handle makes of the notices: the last global of its interface, bound at the version
-- that `at_version` allows, and no removal is looked at.
abbrev pub handle_of : String → (ℕ → ℕ) → List Notice → Option Proxy → Option Proxy
handle_of interface at_version [] p = p
handle_of interface at_version (announced name offered version bind ∷ ns) p =
    handle_of interface at_version ns
      (if str_eq offered interface then bind (at_version version) else p)
handle_of interface at_version (withdrawn name ∷ ns) p = handle_of interface at_version ns p

abbrev pub three_at_most : ℕ → ℕ
three_at_most version = if ltb version 3 then version else 3

module _ {D : Type 0} where
  -- What the two components make of the notices when each is alone with the registry.
  abbrev pub input_of : Headers → List Notice → Context D → Context D
  input_of wl [] c = c
  input_of wl (announced name interface version bind ∷ ns) c =
      input_of wl ns (try_bind_input name interface version bind c).1
  input_of wl (withdrawn name ∷ ns) c = input_of wl ns (global_remove_input wl name c)

  abbrev pub shell_of : List Notice → ShellContext D → ShellContext D
  shell_of [] c = c
  shell_of (announced name interface version bind ∷ ns) c =
      shell_of ns (try_bind_shell name interface version bind c).1
  shell_of (withdrawn name ∷ ns) c = shell_of ns (global_remove_shell name c)

  pub listen : Headers → List Notice → Globals D → Globals D
  listen wl [] a = a
  listen wl (announced name interface version bind ∷ ns) a =
      listen wl ns (registry_global name interface version bind a)
  listen wl (withdrawn name ∷ ns) a = listen wl ns (registry_remove wl name a)

  -- What one announcement is to each part.
  abbrev given : ℕ → String → ℕ → (ℕ → Option Proxy) → Globals D → Globals D
  given name interface version bind a = record {
    compositor =
        if str_eq interface "wl_compositor" then bind (three_at_most version) else a.compositor;
    shm = if str_eq interface "wl_shm" then bind 1 else a.shm;
    shell = if str_eq interface "wl_shell" then bind 1 else a.shell;
    input = (try_bind_input name interface version bind a.input).1;
    webos_shell = (try_bind_shell name interface version bind a.webos_shell).1;
  }

  -- The two components say that they took the globals of their interface, whatever they made of them.
  takes_shell :
      (name version : ℕ) (bind : ℕ → Option Proxy) (c : ShellContext D)
      → (try_bind_shell name "wl_webos_shell" version bind c).0 ≡ true
  unfolding try_bind_shell
  takes_shell name version bind c = ground arith

  takes_seat :
      (name version : ℕ) (bind : ℕ → Option Proxy) (c : Context D)
      → (try_bind_input name "wl_seat" version bind c).0 ≡ true
  unfolding try_bind_input bind_slot
  takes_seat name version bind c = ground arith

  to_shell :
      (name version : ℕ) (bind : ℕ → Option Proxy) (a : Globals D)
      → registry_global name "wl_webos_shell" version bind a
        ≡ given name "wl_webos_shell" version bind a
  unfolding registry_global try_bind_input
  to_shell name version bind a =
      rw (registry_global, takes_shell name version bind a.webos_shell) refl

  to_input :
      (name version : ℕ) (bind : ℕ → Option Proxy) (a : Globals D)
      → registry_global name "wl_seat" version bind a ≡ given name "wl_seat" version bind a
  unfolding registry_global try_bind_shell
  to_input name version bind a = rw (registry_global, takes_seat name version bind a.input) refl

  to_app :
      (name version : ℕ) (bind : ℕ → Option Proxy) (a : Globals D)
      → (registry_global name "wl_compositor" version bind a
          ≡ given name "wl_compositor" version bind a)
        × (registry_global name "wl_shm" version bind a ≡ given name "wl_shm" version bind a)
        × (registry_global name "wl_shell" version bind a ≡ given name "wl_shell" version bind a)
  unfolding registry_global try_bind_shell try_bind_input
  to_app name version bind a = (refl, refl, refl)

  to_none :
      (name : ℕ) (interface : String) (version : ℕ) (bind : ℕ → Option Proxy) (a : Globals D)
      → str_eq interface "wl_webos_shell" ≡ false
      → str_eq interface "wl_seat" ≡ false
      → str_eq interface "wl_compositor" ≡ false
      → str_eq interface "wl_shm" ≡ false
      → str_eq interface "wl_shell" ≡ false
      → registry_global name interface version bind a ≡ given name interface version bind a
  unfolding registry_global try_bind_shell try_bind_input
  to_none name interface version bind a h k l m n = rw (h, k, l, m, n) refl

  registry_global-given :
      (name : ℕ) (interface : String) (version : ℕ) (bind : ℕ → Option Proxy) (a : Globals D)
      → registry_global name interface version bind a ≡ given name interface version bind a
  registry_global-given name interface version bind a =
      let P = λ (s : String). registry_global name s version bind a ≡ given name s version bind a in
      let known = λ (s : String) (e : str_eq interface s ≡ true) (p : P s).
        subst P (sym ((eq_iff interface s).0 e)) p in
      elim (Bool-cases (str_eq interface "wl_webos_shell")) [
        | inl e ↦ known "wl_webos_shell" e (to_shell name version bind a)
        | inr h ↦ elim (Bool-cases (str_eq interface "wl_seat")) [
          | inl e ↦ known "wl_seat" e (to_input name version bind a)
          | inr k ↦ elim (Bool-cases (str_eq interface "wl_compositor")) [
            | inl e ↦ known "wl_compositor" e (to_app name version bind a).0
            | inr l ↦ elim (Bool-cases (str_eq interface "wl_shm")) [
              | inl e ↦ known "wl_shm" e (to_app name version bind a).1
              | inr m ↦ elim (Bool-cases (str_eq interface "wl_shell")) [
                | inl e ↦ known "wl_shell" e (to_app name version bind a).2
                | inr n ↦ to_none name interface version bind a h k l m n
              ]
            ]
          ]
        ]
      ]

  -- After any announcements and removals, each part of the app is what it would be if it were alone
  -- with the registry: the input and the webOS shell are as their own functions leave them, and the
  -- compositor (of version 3 at most), the shared memory and the shell are the last ones announced.
  pub listen-parts :
      (wl : Headers) (ns : List Notice) (a : Globals D)
      → listen wl ns a ≡ record {
        compositor = handle_of "wl_compositor" three_at_most ns a.compositor;
        shm = handle_of "wl_shm" (λ version. 1) ns a.shm;
        shell = handle_of "wl_shell" (λ version. 1) ns a.shell;
        input = input_of wl ns a.input;
        webos_shell = shell_of ns a.webos_shell;
      }
  unfolding listen registry_remove
  listen-parts wl [] a = refl
  listen-parts wl (announced name interface version bind ∷ ns) a =
      ap (listen wl ns) (registry_global-given name interface version bind a)
      ∙ listen-parts wl ns (given name interface version bind a)
  listen-parts wl (withdrawn name ∷ ns) a = listen-parts wl ns (registry_remove wl name a)
