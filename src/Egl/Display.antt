-- ===== src/Egl/Display.antt =====
-- The EGL display: it is there once `init_egl` succeeds, and stays until the end of `main`.
use webos_wayland.Base.{◌≡◌, ◌∙◌, ap, true, not, ◌&&◌, none, some, arith, if-intro, is_some}
use webos_wayland.Rect.Ui.{Pressed}
use webos_wayland.Egl.{Floats, App}
use webos_wayland.Egl.Config.{EglHeaders}
use webos_wayland.Egl.Frame.{
  Answers, render, record_submit, visibility_changed, frame_done, take_callback, record_callback,
  advance, close_requested,
}
use webos_wayland.Egl.Setup.{SetupAnswers, open_display, open_surface, open_program, init_egl}
use webos_wayland.Egl.Keeps.{use_remote-Keeps, shell_configure-Keeps}
use webos_wayland.Egl.Trace.{
  Event, frame, visibility, close, configure, remote, handle, Reach, here, next,
}

module _ (float double : Floats) where
  abbrev HasDisplay : App float double → Type 0
  HasDisplay a = is_some a.egl_display ≡ true

  open_display-HasDisplay :
      (r : SetupAnswers) (a : App float double)
      → (open_display float double r a).0 ≡ true
      → HasDisplay (open_display float double r a).1
  unfolding open_display
  open_display-HasDisplay r a e = ground arith

  open_surface-display :
      (egl : EglHeaders) (r : SetupAnswers) (a : App float double)
      → (open_surface float double egl r a).1.egl_display ≡ a.egl_display
  unfolding open_surface
  open_surface-display egl r a = ground arith

  open_program-display :
      (r : SetupAnswers) (a : App float double)
      → (open_program float double r a).1.egl_display ≡ a.egl_display
  unfolding open_program
  open_program-display r a = ground arith

  pub init_egl-HasDisplay :
      (egl : EglHeaders) (r : SetupAnswers) (a : App float double)
      → (init_egl float double egl r a).0 ≡ true
      → is_some (init_egl float double egl r a).1.egl_display ≡ true
  unfolding init_egl
  init_egl-HasDisplay egl r a e =
      let b = (open_display float double r a).1 in
      ground (
        arith,
        open_display-HasDisplay r a,
        open_surface-display egl r b,
        open_program-display r (open_surface float double egl r b).1,
      )

  pub render-HasDisplay :
      (r : Answers double) (a : App float double)
      → is_some a.egl_display ≡ true
      → is_some (render float double r a).egl_display ≡ true
  unfolding render record_submit
  render-HasDisplay r a h = ground arith

  handle-HasDisplay :
      (wl : Pressed) (e : Event double) (a : App float double)
      → HasDisplay a
      → HasDisplay (handle float double wl e a)
  unfolding handle frame_done record_callback advance visibility_changed close_requested
  handle-HasDisplay wl (frame r cb time) a h =
      let b = take_callback float double r (some cb) a in
      let g : HasDisplay b =
        if-intro (λ (c : App float double). HasDisplay (record c { frame_cb = none }))
          a.latency_trace h h in
      if-intro HasDisplay (a.running && a.render_visible)
        (render-HasDisplay r (advance float double time b) g) g
  handle-HasDisplay wl (visibility r visible) a h =
      if-intro HasDisplay (not visible && is_some a.frame_cb) h (
        if-intro HasDisplay
          (visible && a.running && not (is_some a.frame_cb) && is_some a.egl_context)
          (render-HasDisplay r (record a { render_visible = visible }) h) h)
  handle-HasDisplay wl close a h = h
  handle-HasDisplay wl (configure r width height) a h =
      ap (λ c. is_some c.display) (shell_configure-Keeps float double r width height a).same ∙ h
  handle-HasDisplay wl (remote now e) a h =
      ap (λ c. is_some c.display) (use_remote-Keeps float double wl now e a).same ∙ h

  pub Reach-HasDisplay :
      (wl : Pressed) (first a : App float double)
      → Reach float double wl first a
      → is_some first.egl_display ≡ true
      → is_some a.egl_display ≡ true
  Reach-HasDisplay wl first a here h = h
  Reach-HasDisplay wl first _ (next {a = b} e l c) h =
      handle-HasDisplay wl e b (Reach-HasDisplay wl first b l h)
