-- ===== src/Shell/Lifetime.antt =====
-- From `webos_shell_context_init` to `webos_shell_context_destroy`: which proxies leak.
use webos_wayland.Base.{
  ℕ, ◌+◌, ◌≡◌, refl, ◌∙◌, ap, Bool, true, false, Option, none, some, List, [], ◌∷◌, ◌++◌,
  if◌then◌else◌, ◌==◌, is_some, total, total-append, arith, Option-cases, Bool-cases, inl, inr,
  String, ◌&&◌, ◌||◌, not, bit_or,
}
use webos_wayland.Wayland.{Proxy}
use webos_wayland.Shell.{
  ShellHeaders, ShellContext, Request, bind_shell, get_shell_surface, add_listener, set_property,
  set_key_mask, set_state, destroy_surface, destroy_shell,
}
use webos_wayland.Shell.Events.{handle_state_changed, handle_close, update_visibility, bool_eq}
use webos_wayland.Shell.Setup.{
  context_init, try_bind, attach, global_remove, context_destroy, bind_version,
  destroy_shell_surface, destroy_global,
}
use webos_wayland.Shell.Exposed.{has_area}
use webos_wayland.Shell.Trace.{Event, state_changed, exposed, close, handle, as_array}
use webos_wayland.Shell.Visibility.{handle_exposed-of_scan, scan_array-as_array}

abbrev pub is_proxy : ℕ → Proxy → ℕ
is_proxy id p = if p.id == id then 1 else 0

-- 1 for a request that made the proxy `id`
abbrev pub made : ℕ → Request → ℕ
made id (bind_shell p) = is_proxy id p
made id (get_shell_surface p) = is_proxy id p
made id _ = 0

-- 1 for a request that gave the proxy `id` up
abbrev pub given_up : ℕ → Request → ℕ
given_up id (destroy_surface p) = is_proxy id p
given_up id (destroy_shell p) = is_proxy id p
given_up id _ = 0

abbrev pub is_held : ℕ → Option Proxy → ℕ
is_held id none = 0
is_held id (some p) = is_proxy id p

-- A call of the component by its client or by libwayland, with what the requests in it return.
pub data Call : Type 0 where
  bind : ℕ → String → ℕ → (ℕ → Option Proxy) → Call
  attach_to : String → Option Proxy → Bool → Call
  removed : ℕ → Call
  listener : Event → Call

module _ {D : Type 0} where
  -- Each proxy was made as often as it was given up, is still held, or is among the lost ones.
  abbrev pub IsBalanced : ℕ → List Proxy → ShellContext D → Type 0
  IsBalanced id lost c =
      total (made id) c.sent
      ≡ total (given_up id) c.sent
        + (is_held id c.global + is_held id c.surface)
        + total (is_proxy id) lost

  -- A fault of `handle_exposed` leaves the context as it was, since it reaches no further.
  unfoldable pub call : ShellHeaders → Call → ShellContext D → ShellContext D
  call sh (bind name interface version answer) c = (try_bind name interface version answer c).1
  call sh (attach_to app_id new listens) c = (attach sh app_id new listens c).1
  call sh (removed name) c = global_remove name c
  call sh (listener e) c = elim (handle sh e c) [ none ↦ c | some c' ↦ c' ]

  -- The surface that a call stores over: `webos_shell_attach` with a bound shell does not look
  -- whether the context has one already.
  abbrev pub overwritten : Call → ShellContext D → List Proxy
  overwritten (attach_to app_id new listens) c =
      if is_some c.global then elim c.surface [ none ↦ [] | some s ↦ s ∷ [] ] else []
  overwritten _ c = []

  -- Any calls whatever, with the surfaces that they stored over, the last first.
  pub data Reach (sh : ShellHeaders) (start : ShellContext D)
      : ShellContext D → List Proxy → Type 0 where
    here : Reach sh start start []
    next :
        {c : ShellContext D} {lost : List Proxy} (k : Call)
        → Reach sh start c lost
        → Reach sh start (call sh k c) (overwritten k c ++ lost)

  append-IsBalanced :
      (id : ℕ) (lost lost' : List Proxy) (c c' : ShellContext D) (rs : List Request)
      → IsBalanced id lost c
      → c'.sent ≡ c.sent ++ rs
      → total (made id) rs + (is_held id c.global + is_held id c.surface + total (is_proxy id) lost)
        ≡ total (given_up id) rs
          + (is_held id c'.global + is_held id c'.surface + total (is_proxy id) lost')
      → IsBalanced id lost' c'
  append-IsBalanced id lost lost' c c' rs b e h = omega (
    arith,
    ap (total (made id)) e,
    ap (total (given_up id)) e,
    total-append (made id) c.sent rs,
    total-append (given_up id) c.sent rs,
    b,
    h,
  )

  -- `webos_shell_attach` reports success exactly if the context then has a surface: that is, if
  -- the shell is bound, it made a surface, and the listener could be added.
  pub attach_lem :
      (sh : ShellHeaders) (app_id : String) (new : Option Proxy) (listens : Bool)
      (c : ShellContext D)
      → c.surface ≡ none
      → let (took, c') = attach sh app_id new listens c in
        (took ≡ is_some c'.surface) × (took ≡ (is_some c.global && (is_some new && listens)))
  unfolding attach
  attach_lem sh app_id new listens c h = ground arith

  attach-IsBalanced :
      (sh : ShellHeaders) (id : ℕ) (app_id : String) (new : Option Proxy) (listens : Bool)
      (lost : List Proxy) (c : ShellContext D)
      → IsBalanced id lost c
      → IsBalanced id
          (overwritten (attach_to app_id new listens) c ++ lost)
          (attach sh app_id new listens c).1
  unfolding attach
  attach-IsBalanced sh id app_id none listens lost c b = ground arith
  attach-IsBalanced sh id app_id (some s) true lost c b = elim (Option-cases c.global) [
    | inl g ↦ ground arith
    | inr (g, at) ↦
        append-IsBalanced id lost (overwritten (attach_to app_id (some s) true) c ++ lost) c
          (attach sh app_id (some s) true c).1
          (get_shell_surface s
            ∷ add_listener s
            ∷ set_property s "appId" app_id
            ∷ set_property s "displayAffinity" "0"
            ∷ set_key_mask s (bit_or (bit_or sh.key_default sh.key_back) sh.key_exit)
            ∷ set_state s sh.state_fullscreen
            ∷ [])
          b (ground arith) (ground arith)
  ]
  attach-IsBalanced sh id app_id (some s) false lost c b = elim (Option-cases c.global) [
    | inl g ↦ ground arith
    | inr (g, at) ↦
        append-IsBalanced id lost (overwritten (attach_to app_id (some s) false) c ++ lost) c
          (attach sh app_id (some s) false c).1
          (get_shell_surface s ∷ add_listener s ∷ destroy_surface s ∷ []) b (ground arith)
          (ground arith)
  ]

  try_bind-IsBalanced :
      (id name : ℕ) (interface : String) (version : ℕ) (answer : ℕ → Option Proxy)
      (lost : List Proxy) (c : ShellContext D)
      → IsBalanced id lost c
      → IsBalanced id lost (try_bind name interface version answer c).1
  unfolding try_bind
  try_bind-IsBalanced id name interface version answer lost c b =
      elim (Option-cases (answer (bind_version version))) [
        | inl e ↦ ground (arith, total-append (made id) c.sent [])
        | inr (p, e) ↦ ground (
          arith,
          total-append (made id) c.sent (bind_shell p ∷ []),
          total-append (given_up id) c.sent (bind_shell p ∷ []),
        )
      ]

  update_visibility-IsBalanced :
      (id : ℕ) (lost : List Proxy) (c : ShellContext D)
      → IsBalanced id lost c
      → IsBalanced id lost (update_visibility c)
  unfolding update_visibility
  update_visibility-IsBalanced id lost c b =
      elim (Bool-cases (
        bool_eq (c.state_visible && (not c.have_exposed || c.exposed_visible))
          c.effective_visible)) [ inl same ↦ rw same b | inr other ↦ rw other b ]

  call-IsBalanced :
      (sh : ShellHeaders) (id : ℕ) (k : Call) (lost : List Proxy) (c : ShellContext D)
      → IsBalanced id lost c
      → IsBalanced id (overwritten k c ++ lost) (call sh k c)
  unfolding call handle handle_state_changed handle_close global_remove
  call-IsBalanced sh id (bind name interface version answer) lost c b =
      try_bind-IsBalanced id name interface version answer lost c b
  call-IsBalanced sh id (attach_to app_id new listens) lost c b =
      attach-IsBalanced sh id app_id new listens lost c b
  call-IsBalanced sh id (removed name) lost c b = b
  call-IsBalanced sh id (listener (state_changed state)) lost c b =
      update_visibility-IsBalanced id lost
        (record c { state = state; state_visible = not (state == sh.state_minimized) }) b
  call-IsBalanced sh id (listener (exposed values)) lost c b =
      let e = handle_exposed-of_scan c (as_array values) (scan_array-as_array values) in
      rw (e, call)
        (update_visibility-IsBalanced id lost
          (record c { have_exposed = true; exposed_visible = has_area values }) b)
  call-IsBalanced sh id (listener close) lost c b = b

  Reach-IsBalanced :
      (sh : ShellHeaders) (d : D) (f : Option (D → Bool → D)) (g : Option (D → D)) (id : ℕ)
      {c : ShellContext D} {lost : List Proxy}
      → Reach sh (context_init sh d f g) c lost
      → IsBalanced id lost c
  unfolding context_init
  Reach-IsBalanced sh d f g id here = refl
  Reach-IsBalanced sh d f g id (next {c} {lost} k r) =
      call-IsBalanced sh id k lost c (Reach-IsBalanced sh d f g id r)

  destroy_shell_surface-IsBalanced :
      (id : ℕ) (lost : List Proxy) (c : ShellContext D)
      → IsBalanced id lost c
      → IsBalanced id lost (destroy_shell_surface c)
  unfolding destroy_shell_surface
  destroy_shell_surface-IsBalanced id lost c b = elim (Option-cases c.surface) [
    | inl e ↦ ground arith
    | inr (s, e) ↦
        append-IsBalanced id lost lost c (destroy_shell_surface c) (destroy_surface s ∷ []) b
          (ground arith) (ground arith)
  ]

  destroy_global-IsBalanced :
      (id : ℕ) (lost : List Proxy) (c : ShellContext D)
      → IsBalanced id lost c
      → IsBalanced id lost (destroy_global c)
  unfolding destroy_global
  destroy_global-IsBalanced id lost c b = elim (Option-cases c.global) [
    | inl e ↦ ground arith
    | inr (s, e) ↦
        append-IsBalanced id lost lost c (destroy_global c) (destroy_shell s ∷ []) b (ground arith)
          (ground arith)
  ]

  context_destroy-IsBalanced :
      (id : ℕ) (lost : List Proxy) (c : ShellContext D)
      → IsBalanced id lost c
      → IsBalanced id lost (context_destroy c)
  unfolding context_destroy
  context_destroy-IsBalanced id lost c b =
      destroy_global-IsBalanced id lost _ (destroy_shell_surface-IsBalanced id lost c b)

  nothing_left :
      (c : ShellContext D)
      → ((context_destroy c).global ≡ none) × ((context_destroy c).surface ≡ none)
  unfolding context_destroy
  nothing_left c = ground arith

  -- After any calls, `webos_shell_context_destroy` leaves neither the global nor a surface, and
  -- every proxy has been made as often as it was given up or lost, where the surfaces lost are those
  -- that `webos_shell_attach` stored over.
  pub context_destroy-releases_shell :
      (sh : ShellHeaders) (d : D) (f : Option (D → Bool → D)) (g : Option (D → D))
      {c : ShellContext D} {lost : List Proxy}
      → Reach sh (context_init sh d f g) c lost
      → (id : ℕ)
      → ((context_destroy c).global ≡ none)
        × ((context_destroy c).surface ≡ none)
        × (total (made id) (context_destroy c).sent
            ≡ total (given_up id) (context_destroy c).sent + total (is_proxy id) lost)
  context_destroy-releases_shell sh d f g {c} {lost} r id =
      let b = context_destroy-IsBalanced id lost c (Reach-IsBalanced sh d f g id r) in
      let (no_global, no_surface) = nothing_left c in
      (no_global, no_surface, b ∙ rw (no_global, no_surface) (omega arith))
