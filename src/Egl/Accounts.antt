-- ===== src/Egl/Accounts.antt =====
-- Every event of the loop of native/wayland_egl.c keeps the accounts of `Egl.Kinds` in order.
use webos_wayland.Base.{
  ℕ, ◌≡◌, refl, Bool, not, ◌&&◌, Option, none, some, ◌==◌, arith, if-intro, is_some, subst,
}
use webos_wayland.Wayland.{Proxy}
use webos_wayland.Rect.Ui.{Pressed}
use webos_wayland.Egl.{Floats, App}
use webos_wayland.Egl.Frame.{
  Answers, record_submit, render, draw_frame, drawing, record_callback, take_callback, advance,
  visibility_changed, close_requested, frame_done, shell_configure, drop_callback, emit, is_set,
}
use webos_wayland.Egl.Keeps.{use_remote-Keeps, shell_configure-Keeps}
use webos_wayland.Egl.Kinds.{Kind, windows, IsBalanced, IsEven, step-IsBalanced, Keeps-IsBalanced}
use webos_wayland.Egl.Trace.{
  Event, frame, visibility, close, configure, remote, use_remote, handle, CanArrive, Reach, here,
  next,
}

module _ (float double : Floats) where
  -- A frame destroys the callback that it replaces.
  redraw-IsEven :
      (k : Kind) (id : ℕ) (r : Answers double) (a : App float double) (old : Option Proxy)
      → IsEven float double k id
          (record a { frame_cb = old })
          (draw_frame float double r (record a { frame_cb = old }))
          (drawing float double r.callback (record a { frame_cb = old }))
  unfolding drawing
  redraw-IsEven windows id r a none = omega arith
  redraw-IsEven windows id r a (some cb) = omega arith
  redraw-IsEven _ id r a none = omega arith
  redraw-IsEven _ id r a (some cb) = omega arith

  -- Dropping a callback gives it up, and nothing else.
  drop-IsEven :
      (k : Kind) (id : ℕ) (a : App float double) (old : Option Proxy)
      → IsEven float double k id
          (record a { frame_cb = old })
          (record a { frame_cb = none })
          (drop_callback float double old)
  drop-IsEven windows id a none = omega arith
  drop-IsEven windows id a (some cb) = omega arith
  drop-IsEven _ id a none = omega arith
  drop-IsEven _ id a (some cb) = omega arith

  module _ (k : Kind) (id : ℕ) where
    record_submit-IsBalanced :
        (r : Answers double) (a : App float double)
        → IsBalanced float double k id a
        → IsBalanced float double k id (record_submit float double r a)
    unfolding record_submit
    record_submit-IsBalanced r a p =
        if-intro (IsBalanced float double k id)
          (a.latency_trace
            && not (a.input_serial == a.rendered_input_serial)
            && is_set float double a.last_input_sec)
          p p

    pub render-IsBalanced :
        (r : Answers double) (a : App float double)
        → IsBalanced float double k id a
        → IsBalanced float double k id (render float double r a)
    unfolding render
    render-IsBalanced r a p =
        if-intro (IsBalanced float double k id) (a.running && a.render_visible)
          (record_submit-IsBalanced r (draw_frame float double r a) (
            step-IsBalanced float double k id a (draw_frame float double r a)
              (drawing float double r.callback a) refl (redraw-IsEven k id r a a.frame_cb) p))
          p

    -- The callback that the app holds is given up.
    drop-IsBalanced :
        (a : App float double)
        → IsBalanced float double k id a
        → IsBalanced float double k id (
            emit float double
              (drop_callback float double a.frame_cb)
              (record a { frame_cb = none }))
    drop-IsBalanced a p =
        step-IsBalanced float double k id a
          (emit float double (drop_callback float double a.frame_cb) (record a { frame_cb = none }))
          (drop_callback float double a.frame_cb) refl (drop-IsEven k id a a.frame_cb) p

    visibility_changed-IsBalanced :
        (r : Answers double) (visible : Bool) (a : App float double)
        → IsBalanced float double k id a
        → IsBalanced float double k id (visibility_changed float double r visible a)
    unfolding visibility_changed
    visibility_changed-IsBalanced r visible a p =
        if-intro (IsBalanced float double k id) (not visible && is_some a.frame_cb)
          (drop-IsBalanced (record a { render_visible = visible }) p)
          (if-intro (IsBalanced float double k id)
            (visible && a.running && not (is_some a.frame_cb) && is_some a.egl_context)
            (render-IsBalanced r (record a { render_visible = visible }) p) p)

    take_callback-IsBalanced :
        (r : Answers double) (cb : Proxy) (a : App float double)
        → a.frame_cb ≡ some cb
        → IsBalanced float double k id a
        → IsBalanced float double k id (take_callback float double r (some cb) a)
    unfolding record_callback
    take_callback-IsBalanced r cb a e p =
        let drop = λ (b : App float double).
          emit float double (drop_callback float double (some cb)) (record b { frame_cb = none }) in
        let q =
          subst
            (λ old.
              IsBalanced float double k id
                (emit float double (drop_callback float double old) (record a { frame_cb = none })))
            e (drop-IsBalanced a p) in
        if-intro (λ b. IsBalanced float double k id (drop b)) a.latency_trace q q

    frame_done-IsBalanced :
        (r : Answers double) (cb : Proxy) (time : ℕ) (a : App float double)
        → a.frame_cb ≡ some cb
        → IsBalanced float double k id a
        → IsBalanced float double k id (frame_done float double r (some cb) time a)
    unfolding frame_done advance
    frame_done-IsBalanced r cb time a e p =
        let b = take_callback float double r (some cb) a in
        let q = take_callback-IsBalanced r cb a e p in
        if-intro (IsBalanced float double k id) (a.running && a.render_visible)
          (render-IsBalanced r (advance float double time b) q) q

    handle-IsBalanced :
        (wl : Pressed) (e : Event double) (a : App float double)
        → CanArrive float double e a
        → IsBalanced float double k id a
        → IsBalanced float double k id (handle float double wl e a)
    unfolding handle close_requested
    handle-IsBalanced wl (frame r cb time) a c p = frame_done-IsBalanced r cb time a c p
    handle-IsBalanced wl (visibility r visible) a c p = visibility_changed-IsBalanced r visible a p
    handle-IsBalanced wl close a c p = p
    handle-IsBalanced wl (configure r width height) a c p =
        Keeps-IsBalanced float double k id a (shell_configure float double r width height a)
          (shell_configure-Keeps float double r width height a) p
    handle-IsBalanced wl (remote now e) a c p =
        Keeps-IsBalanced float double k id a (use_remote float double wl now e a)
          (use_remote-Keeps float double wl now e a) p

    pub Reach-IsBalanced :
        (wl : Pressed) (first a : App float double)
        → Reach float double wl first a
        → IsBalanced float double k id first
        → IsBalanced float double k id a
    Reach-IsBalanced wl first a here p = p
    Reach-IsBalanced wl first _ (next {a = b} e l c) p =
        handle-IsBalanced wl e b c (Reach-IsBalanced wl first b l p)
