-- ===== src/Egl/Hidden.antt =====
-- A hidden window in native/wayland_egl.c, and the samples of a frame.
use webos_wayland.Base.{
  ℕ, ◌≡◌, refl, ◌∙◌, sym, ap, Bool, false, ◌&&◌, Option, none, some, arith, if-intro, List, String,
}
use webos_wayland.Wayland.{Proxy}
use webos_wayland.Rect.Ui.{Pressed}
use webos_wayland.Egl.{Floats, App}
use webos_wayland.Egl.Frame.{
  Answers, render, record_submit, visibility_changed, frame_done, take_callback, record_callback,
  advance, close_requested,
}
use webos_wayland.Egl.Config.{EglHeaders}
use webos_wayland.Egl.Setup.{SetupAnswers, begin_loop, registered, trace_latency, start}
use webos_wayland.Egl.Begin.{begin_loop-keeps}
use webos_wayland.Egl.Keeps.{Keeps, use_remote-Keeps, shell_configure-Keeps}
use webos_wayland.Egl.Trace.{
  Event, frame, visibility, close, configure, remote, handle, Reach, here, next,
}

module _ (float double : Floats) where
  -- Where the window is hidden, the app waits for no frame.
  abbrev pub IsQuiet : App float double → Type 0
  IsQuiet a = a.render_visible ≡ false → a.frame_cb ≡ none

  render-IsQuiet :
      (r : Answers double) (a : App float double) → IsQuiet a → IsQuiet (render float double r a)
  unfolding render record_submit
  render-IsQuiet r a q = ground arith

  same-IsQuiet : (a a' : App float double) → Keeps float double a a' → IsQuiet a → IsQuiet a'
  same-IsQuiet a a' keeps q h =
      ap (λ c. c.waits) keeps.same ∙ q (ap (λ c. c.visible) (sym keeps.same) ∙ h)

  visibility_changed-IsQuiet :
      (r : Answers double) (visible : Bool) (a : App float double)
      → IsQuiet a
      → IsQuiet (visibility_changed float double r visible a)
  unfolding visibility_changed
  visibility_changed-IsQuiet r visible a q =
      ground (arith, render-IsQuiet r (record a { render_visible = visible }))

  frame_done-IsQuiet :
      (r : Answers double) (cb : Proxy) (time : ℕ) (a : App float double)
      → IsQuiet (frame_done float double r (some cb) time a)
  unfolding frame_done record_callback advance
  frame_done-IsQuiet r cb time a =
      let b = take_callback float double r (some cb) a in
      let q : IsQuiet b =
        if-intro (λ (c : App float double). IsQuiet (record c { frame_cb = none })) a.latency_trace
          (λ _. refl) (λ _. refl) in
      if-intro IsQuiet (a.running && a.render_visible)
        (render-IsQuiet r (advance float double time b) q) q

  handle-IsQuiet :
      (wl : Pressed) (e : Event double) (a : App float double)
      → IsQuiet a
      → IsQuiet (handle float double wl e a)
  unfolding handle close_requested
  handle-IsQuiet wl (frame r cb time) a q = frame_done-IsQuiet r cb time a
  handle-IsQuiet wl (visibility r visible) a q = visibility_changed-IsQuiet r visible a q
  handle-IsQuiet wl close a q = q
  handle-IsQuiet wl (configure r width height) a q =
      same-IsQuiet a _ (shell_configure-Keeps float double r width height a) q
  handle-IsQuiet wl (remote now e) a q =
      same-IsQuiet a _ (use_remote-Keeps float double wl now e a) q

  run-IsQuiet :
      (wl : Pressed) (first a : App float double)
      → IsQuiet first
      → Reach float double wl first a
      → IsQuiet a
  run-IsQuiet wl first a q here = q
  run-IsQuiet wl first _ q (next {a = b} e l c) = handle-IsQuiet wl e b (run-IsQuiet wl first b q l)

  -- Nothing waits before the first frame.
  start-IsQuiet :
      (compositor shell : Option Proxy) (wanted intervals submits swaps answers : Bool)
      (mode : String)
      → IsQuiet (
          registered float double compositor shell (
            trace_latency float double wanted intervals submits swaps answers
              (start float double mode)))
  unfolding start trace_latency
  start-IsQuiet compositor shell wanted intervals submits swaps answers mode =
      if-intro (λ (a : App float double). IsQuiet (registered float double compositor shell a))
        (wanted && intervals && submits && swaps && answers) (λ h. refl) (λ h. refl)

  -- When `main` gets to its loop, each run of the loop leads to an app that waits for no frame while
  -- its window is hidden.
  pub Reach-IsQuiet :
      (egl : EglHeaders) (setup : SetupAnswers) (r : Answers double)
      (surface shell_surface compositor shell : Option Proxy)
      (wanted intervals submits swaps answers : Bool) (mode : String) (wl : Pressed)
      (first a : App float double)
      → begin_loop float double egl setup r surface shell_surface (
          registered float double compositor shell (
            trace_latency float double wanted intervals submits swaps answers
              (start float double mode)))
        ≡ (none, first)
      → Reach float double wl first a
      → a.render_visible ≡ false
      → a.frame_cb ≡ none
  Reach-IsQuiet egl setup r surface shell_surface compositor shell wanted intervals submits swaps
        answers mode wl first a opened reached =
      run-IsQuiet wl first a
        (begin_loop-keeps float double IsQuiet egl setup r surface shell_surface
          (registered float double compositor shell (
            trace_latency float double wanted intervals submits swaps answers
              (start float double mode)))
          first (λ b c same q h. ap (λ w. w.waits) same ∙ q (ap (λ w. w.visible) (sym same) ∙ h))
          render-IsQuiet
          (start-IsQuiet compositor shell wanted intervals submits swaps answers mode) opened)
        reached

  -- The samples of an input, and the number of the input that they are about.
  abbrev pub submitted : App float double → Option (List double.F) × Option (List double.F) × ℕ
  submitted a = (a.input_submit_samples, a.input_swap_samples, a.rendered_input_serial)

  -- A second frame records no further sample for the input that the first one showed.
  pub submitted-render-render :
      (r s : Answers double) (a : App float double)
      → submitted (render float double s (render float double r a))
        ≡ submitted (render float double r a)
  unfolding render record_submit
  submitted-render-render r s a = ground arith
