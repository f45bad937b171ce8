-- ===== src/Egl/Frame.antt =====
-- native/wayland_egl.c, lines 259 to 268, 385 to 403, 448 to 552 and 559 to 579: frames, visibility
-- and size.
use webos_wayland.Base.{
  ℕ, ◌+◌, ◌%◌, ℤ, pos, Bool, true, false, not, ◌&&◌, Option, none, some, List, [], ◌∷◌, ◌++◌,
  if◌then◌else◌, ◌==◌, ltb_ℤ, is_some, sub32,
}
use webos_wayland.Wayland.{Proxy}
use webos_wayland.Egl.{
  Floats, Effect, App, resize_window, viewport, clear, use_program, bind_buffer, enable_attribute,
  uniform_angle, uniform_offset, uniform_color, draw_triangle, disable_attribute, set_opaque,
  request_frame, destroy_callback, swap_buffers,
}
use webos_wayland.Egl.Latency.{latency_record}

-- What libwayland, EGL and the clock answer within one event: to `wl_surface_frame`, to
-- `eglSwapBuffers`, to `wl_compositor_create_region`, and the times at which `frame_done` and
-- `render` begin and at which the swap returned.
pub record Answers (double : Floats) : Type 0 where
  pub callback : Option Proxy
  pub swaps : Bool
  pub region : Bool
  pub called : double.F
  pub started : double.F
  pub swapped : double.F

module _ (float double : Floats) where
  abbrev pub emit : List (Effect float) → App float double → App float double
  emit es a = record a { done = a.done ++ es }

  abbrev pub drop_callback : Option Proxy → List (Effect float)
  drop_callback none = []
  drop_callback (some cb) = destroy_callback cb ∷ []

  -- `(later - earlier) * 1000.0`
  abbrev pub elapsed_ms : double.F → double.F → double.F
  elapsed_ms later earlier = double.mul (double.sub later earlier) (double.decimal (pos 10000) 1)

  -- `sec > 0.0`
  abbrev pub is_set : double.F → Bool
  is_set sec = double.lt (double.decimal (pos 0) 1) sec

  -- the background and the colour of a theme
  unfoldable pub colors : ℕ → (float.F × float.F × float.F) × (float.F × float.F × float.F)
  colors theme =
      let f = λ (n k : ℕ). float.decimal (pos n) k in
      if theme % 3 == 1
      then ((f 8 2, f 2 2, f 6 2), (f 10 1, f 25 2, f 75 2))
      else if theme % 3 == 2
      then ((f 2 2, f 7 2, f 25 3), (f 3 1, f 10 1, f 35 2))
      else ((f 2 2, f 3 2, f 8 2), (f 2 1, f 8 1, f 10 1))

  -- what `render` asks for before the swap
  unfoldable pub drawing : Option Proxy → App float double → List (Effect float)
  unfolding colors
  drawing callback a =
      let (bg, fg) = colors a.theme in
      let (bg_r, bg_g, bg_b) = bg in
      let (cr, cg, cb) = fg in
      (viewport a.width a.height
        ∷ clear bg_r bg_g bg_b
        ∷ use_program a.program
        ∷ bind_buffer a.vbo
        ∷ enable_attribute a.attr_pos
        ∷ uniform_angle a.animation_time
        ∷ uniform_offset a.offset_x a.offset_y
        ∷ uniform_color cr cg cb
        ∷ draw_triangle
        ∷ disable_attribute a.attr_pos
        ∷ drop_callback a.frame_cb)
      ++ (request_frame callback ∷ swap_buffers ∷ [])

  -- the samples of `render`, which are taken once for each input
  unfoldable pub record_submit : Answers double → App float double → App float double
  unfolding latency_record
  record_submit r a =
      if a.latency_trace
        && not (a.input_serial == a.rendered_input_serial)
        && is_set a.last_input_sec
      then record a {
        input_submit_samples =
            latency_record a.input_submit_samples (elapsed_ms r.started a.last_input_sec);
        input_swap_samples =
            latency_record a.input_swap_samples (elapsed_ms r.swapped a.last_input_sec);
        rendered_input_serial = a.input_serial;
      }
      else a

  -- lines 488 to 534, on a visible window
  abbrev pub draw_frame : Answers double → App float double → App float double
  draw_frame r a =
      emit (drawing r.callback a) (record a { frame_cb = r.callback; running = r.swaps })

  unfoldable pub render : Answers double → App float double → App float double
  unfolding record_submit
  render r a = if a.running && a.render_visible then record_submit r (draw_frame r a) else a

  -- `webos_visibility_changed`
  unfoldable pub visibility_changed : Answers double → Bool → App float double → App float double
  unfolding render
  visibility_changed r visible a =
      let a' = record a { render_visible = visible } in
      if not visible && is_some a.frame_cb
      then emit (drop_callback a.frame_cb) (record a' { frame_cb = none })
      else if visible && a.running && not (is_some a.frame_cb) && is_some a.egl_context
      then render r a'
      else a'

  -- `webos_close_requested`
  unfoldable pub close_requested : App float double → App float double
  close_requested a = record a { running = false }

  -- lines 452 to 465: the samples of `frame_done`
  unfoldable pub record_callback : Answers double → App float double → App float double
  unfolding latency_record
  record_callback r a =
      if a.latency_trace
      then record a {
        callback_intervals =
            if is_set a.last_callback_sec
            then latency_record a.callback_intervals (elapsed_ms r.called a.last_callback_sec)
            else a.callback_intervals;
        input_callback_samples =
            if is_set a.last_input_sec && not (a.input_serial == a.rendered_input_serial)
            then latency_record a.input_callback_samples (elapsed_ms r.called a.last_input_sec)
            else a.input_callback_samples;
        last_callback_sec = r.called;
      }
      else a

  -- lines 472 to 477: the time of the animation, and the number of the frame
  unfoldable pub advance : ℕ → App float double → App float double
  advance time a =
      let first = if a.have_frame_time then a.first_frame_time else time in
      record a {
        first_frame_time = first;
        have_frame_time = true;
        animation_time =
            float.mul (float.of_int (pos (sub32 time first))) (float.decimal (pos 1) 3);
        frame = a.frame + 1;
      }

  -- lines 450 to 468
  abbrev pub take_callback : Answers double → Option Proxy → App float double → App float double
  take_callback r cb a = emit (drop_callback cb) (record (record_callback r a) { frame_cb = none })

  -- `frame_done`, with the callback that it is handed
  unfoldable pub frame_done :
      Answers double → Option Proxy → ℕ → App float double → App float double
  unfolding record_callback advance render
  frame_done r cb time a =
      let b = take_callback r cb a in
      if a.running && a.render_visible then render r (advance time b) else b

  unfoldable pub set_surface_opaque : Bool → App float double → App float double
  set_surface_opaque made a =
      if is_some a.compositor
        && is_some a.surface
        && ltb_ℤ (pos 0) a.width
        && ltb_ℤ (pos 0) a.height
        && made
      then emit (set_opaque a.width a.height ∷ []) a
      else a

  -- `wl_egl_window_resize`, where there is a window
  abbrev pub resizing : ℤ → ℤ → Option Proxy → List (Effect float)
  resizing width height none = []
  resizing width height (some w) = resize_window w width height ∷ []

  -- `shell_configure`
  unfoldable pub shell_configure : Answers double → ℤ → ℤ → App float double → App float double
  unfolding set_surface_opaque
  shell_configure r width height a =
      if ltb_ℤ (pos 0) width && ltb_ℤ (pos 0) height
      then (let b =
            emit (resizing width height a.egl_window)
              (record a { width = width; height = height }) in
          let c = set_surface_opaque r.region b in
          if is_some a.egl_context then emit (viewport width height ∷ []) c else c)
      else a
