-- ===== src/Egl/Lifetime.antt =====
-- The whole life of what EGL and OpenGL ES make: from the start of `main` to its end.
use webos_wayland.Base.{
  ℕ, ◌≡◌, refl, ◌∙◌, subst, ap, Bool, true, ◌&&◌, Option, none, some, ◌++◌, total, total-append,
  arith, if-intro, if-cases, is_some, String,
}
use webos_wayland.Wayland.{Proxy}
use webos_wayland.Rect.Ui.{Pressed}
use webos_wayland.Egl.{Floats, App}
use webos_wayland.Egl.Config.{EglHeaders}
use webos_wayland.Egl.Frame.{Answers, set_surface_opaque}
use webos_wayland.Egl.Setup.{
  SetupAnswers, init_egl, begin_loop, finish, start, trace_latency, registered, close_egl,
  close_wayland,
}
use webos_wayland.Egl.Keeps.{set_surface_opaque-Keeps}
use webos_wayland.Egl.Kinds.{Kind, shaders, made, given_up, IsBalanced, Keeps-IsBalanced}
use webos_wayland.Egl.Making.{close_egl-total, close_egl-makes_nothing, close_wayland-total}
use webos_wayland.Egl.Opening.{IsUndrawn, init_egl-IsBalanced}
use webos_wayland.Egl.Accounts.{render-IsBalanced, Reach-IsBalanced}
use webos_wayland.Egl.Display.{init_egl-HasDisplay, render-HasDisplay, Reach-HasDisplay}
use webos_wayland.Egl.Trace.{Reach}

module _ (float double : Floats) where
  start-IsBalanced :
      (k : Kind) (id : ℕ) (mode : String) → IsBalanced float double k id (start float double mode)
  unfolding start
  start-IsBalanced shaders id mode = refl
  start-IsBalanced _ id mode = refl

  module _ (k : Kind) (id : ℕ) where
    -- The opaque region changes nothing that the stages read.
    set_surface_opaque-IsUndrawn :
        (made : Bool) (a : App float double)
        → IsUndrawn float double k id a
        → IsUndrawn float double k id (set_surface_opaque float double made a)
    set_surface_opaque-IsUndrawn made a u =
        let b = set_surface_opaque float double made a in
        let keeps = set_surface_opaque-Keeps float double made a in
        record {
          unlinked = record {
            balanced = Keeps-IsBalanced float double k id a b keeps u.unlinked.balanced;
            program = ap (λ c. c.program) keeps.same ∙ u.unlinked.program;
            vbo = ap (λ c. c.vbo) keeps.same ∙ u.unlinked.vbo;
          };
          context = ap (λ c. c.context) keeps.same ∙ u.context;
          surface = ap (λ c. c.surface) keeps.same ∙ u.surface;
        }

    -- what holds of the app with which the loop starts
    StartsWell : Option ℕ × App float double → Type 0
    StartsWell x = x.0 ≡ none → IsBalanced float double k id x.1 × (is_some x.1.egl_display ≡ true)

    exits : (code : ℕ) (a : App float double) → StartsWell (some code, a)
    unfolding StartsWell
    exits code a n = ground arith

    begin_loop-IsBalanced :
        (egl : EglHeaders) (setup : SetupAnswers) (r : Answers double)
        (surface shell_surface : Option Proxy) (a : App float double)
        → a.egl_window ≡ none
        → IsUndrawn float double k id a
        → StartsWell (begin_loop float double egl setup r surface shell_surface a)
    unfolding begin_loop StartsWell
    begin_loop-IsBalanced egl setup r surface shell_surface a e u =
        let a' = record a { surface = surface; shell_surface = shell_surface } in
        let u' : IsUndrawn float double k id a' = record {
          unlinked = record {
            balanced = u.unlinked.balanced;
            program = u.unlinked.program;
            vbo = u.unlinked.vbo;
          };
          context = u.context;
          surface = u.surface;
        } in
        let b = set_surface_opaque float double r.region a' in
        let same = (set_surface_opaque-Keeps float double r.region a').same in
        let w = set_surface_opaque-IsUndrawn r.region a' u' in
        let c = (init_egl float double egl setup b).1 in
        let q = init_egl-IsBalanced float double k id egl setup b (ap (λ c. c.window) same ∙ e) w in
        if-intro StartsWell (is_some a.compositor && is_some a.shell)
          (if-intro StartsWell (is_some surface)
            (if-intro StartsWell (is_some shell_surface)
              (if-cases StartsWell (init_egl float double egl setup b).0
                (λ opened n. (
                  render-IsBalanced float double k id r c q,
                  render-HasDisplay float double r c
                      (init_egl-HasDisplay float double egl setup b opened),
                ))
                (λ failed. exits 5 c))
              (exits 4 (record a { surface = surface; shell_surface = none })))
            (exits 4 (record a { surface = none })))
          (exits 3 a)

    -- The lists of samples are no part of the accounts.
    trace_latency-IsUndrawn :
        (wanted intervals submits swaps answers : Bool) (compositor shell : Option Proxy)
        (a : App float double)
        → IsUndrawn float double k id a
        → IsUndrawn float double k id (
            registered float double compositor shell
              (trace_latency float double wanted intervals submits swaps answers a))
    unfolding trace_latency
    trace_latency-IsUndrawn wanted intervals submits swaps answers compositor shell a u =
        if-intro
          (λ (b : App float double).
            IsUndrawn float double k id (registered float double compositor shell b))
          (wanted && intervals && submits && swaps && answers)
          (record {
            unlinked = record {
              balanced = u.unlinked.balanced;
              program = u.unlinked.program;
              vbo = u.unlinked.vbo;
            };
            context = u.context;
            surface = u.surface;
          })
          (record {
            unlinked = record {
              balanced = u.unlinked.balanced;
              program = u.unlinked.program;
              vbo = u.unlinked.vbo;
            };
            context = u.context;
            surface = u.surface;
          })

    trace_latency-window :
        (wanted intervals submits swaps answers : Bool) (a : App float double)
        → (trace_latency float double wanted intervals submits swaps answers a).egl_window
          ≡ a.egl_window
    unfolding trace_latency
    trace_latency-window wanted intervals submits swaps answers a =
        if-intro (λ (b : App float double). b.egl_window ≡ a.egl_window)
          (wanted && intervals && submits && swaps && answers) refl refl

    -- What `main` asks for last gives up what the app holds.
    finish-total :
        (a : App float double)
        → IsBalanced float double k id a
        → is_some a.egl_display ≡ true
        → total (made float double k id) (finish float double a).done
          ≡ total (given_up float double k id) (finish float double a).done
    unfolding finish close_wayland
    finish-total a p d = omega (
      arith,
      p,
      close_egl-total float double k id a d,
      close_egl-makes_nothing float double k id a,
      close_wayland-total float double k id a,
      total-append (made float double k id) a.done
          (close_egl float double a ++ close_wayland float double a),
      total-append (given_up float double k id) a.done
          (close_egl float double a ++ close_wayland float double a),
      total-append (made float double k id) (close_egl float double a)
          (close_wayland float double a),
      total-append (given_up float double k id) (close_egl float double a)
          (close_wayland float double a),
    )

    -- When `main` gets to its loop and through any run of it, then by its end every window, context,
    -- surface, program, buffer, shader and frame callback was given up as often as it was made.
    pub finish-gives_up_all :
        (egl : EglHeaders) (setup : SetupAnswers) (r : Answers double)
        (surface shell_surface compositor shell : Option Proxy)
        (wanted intervals submits swaps answers : Bool) (mode : String) (wl : Pressed)
        (first a : App float double)
        → begin_loop float double egl setup r surface shell_surface (
            registered float double compositor shell (
              trace_latency float double wanted intervals submits swaps answers
                (start float double mode)))
          ≡ (none, first)
        → Reach float double wl first a
        → total (made float double k id) (finish float double a).done
          ≡ total (given_up float double k id) (finish float double a).done
    unfolding start StartsWell
    finish-gives_up_all egl setup r surface shell_surface compositor shell wanted intervals submits
          swaps answers mode wl first a opened reached =
        let s = start float double mode in
        let u =
          trace_latency-IsUndrawn wanted intervals submits swaps answers compositor shell s
            (record {
              unlinked = record {
                balanced = start-IsBalanced k id mode;
                program = refl;
                vbo = refl;
              };
              context = refl;
              surface = refl;
            }) in
        let w = trace_latency-window wanted intervals submits swaps answers s in
        let (balanced, display) =
          subst StartsWell opened
            (begin_loop-IsBalanced egl setup r surface shell_surface
              (registered float double compositor shell
                (trace_latency float double wanted intervals submits swaps answers s))
              w u)
            refl in
        finish-total a (Reach-IsBalanced float double k id wl first a reached balanced)
          (Reach-HasDisplay float double wl first a reached display)
