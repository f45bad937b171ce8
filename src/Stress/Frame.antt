-- ===== src/Stress/Frame.antt =====
-- native/wayland_egl_stress.c, lines 1127 to 1163, 1217 to 1242 and 1379 to 1575: frames, visibility
-- and size of the stress client.
use webos_wayland.Base.{
  ℤ, pos, ◌+ℤ◌, Bool, true, false, not, ◌&&◌, ◌||◌, Option, none, some, List, [], ◌∷◌, ◌++◌,
  if◌then◌else◌, ◌==◌, ltb_ℤ, is_some,
}
use webos_wayland.Wayland.{Proxy}
use webos_wayland.Egl.{Floats}
use webos_wayland.Stress.Timers.{
  next64, throttle_offscreen, begin_gpu_timer, end_gpu_timer, poll_gpu_timers,
}
use webos_wayland.Stress.Draws.{is_multipass, draw_frame}
use webos_wayland.Stress.Metrics.{record_metric, benchmark_expired}
use webos_wayland.Stress.State.{
  Effect, App, Answers, is_offscreen, is_frame, drop_callback, draws, request_frame, swap_buffers,
  resize_window, viewport, set_opaque,
}

module _ (double : Floats) where
  open double use {decimal, add, sub, mul, lt}

  abbrev pub emit : List Effect → App double → App double
  emit es a = record a { done = a.done ++ es }

  -- `(later - earlier) * 1000.0`
  abbrev pub elapsed_ms : double.F → double.F → double.F
  elapsed_ms later earlier = mul (sub later earlier) (decimal (pos 10000) 1)

  -- line 1390
  abbrev pub throttle : Answers double → App double → App double
  throttle r a = record a {
    timers =
        throttle_offscreen double r.throttled r.waited
          (record a.timers { offscreen = is_offscreen a.pacing });
  }

  -- lines 1426 to 1432
  unfoldable pub can_draw : App double → Bool
  can_draw a =
      not (is_multipass a.load.workload)
      || not (a.fbo == 0 || (a.multipass_texture_b == 0) || (a.source_texture == 0))

  -- lines 1450 to 1508
  unfoldable pub submit : Answers double → App double → App double
  unfolding draw_frame
  submit r a =
      let (slot, b) = begin_gpu_timer double r.begun r.timer_start a.timers in
      let (commands, source, target) = draw_frame a.load a.source_texture a.target_texture in
      emit (draws commands ∷ []) (record a {
        timers = end_gpu_timer double slot b;
        source_texture = source;
        target_texture = target;
      })

  -- lines 1513 to 1517
  unfoldable pub ask_frame : Answers double → App double → App double
  ask_frame r a =
      if is_frame a.pacing
      then emit (drop_callback a.frame_cb ++ (request_frame r.callback ∷ []))
          (record a { frame_cb = r.callback })
      else a

  -- lines 1521 to 1530: false for the return after a failed swap
  unfoldable pub present : Answers double → App double → Bool × App double
  present r a =
      if is_offscreen a.pacing
      then (true, a)
      else let b = emit (swap_buffers ∷ []) a in
        if r.swaps
        then (true, record b { presented = next64 a.presented })
        else (false, record b { running = false })

  -- whether `swap_end > swap_start`, which are 0.0 where there is no swap
  abbrev pub has_swapped : Answers double → App double → Bool
  has_swapped r a = not (is_offscreen a.pacing) && lt r.swap_start r.swap_end

  -- lines 1532 to 1539
  unfoldable pub count_frame : Answers double → App double → App double
  count_frame r a =
      let measured = not (lt r.query_end a.timers.warmup) in
      record a {
        frame = next64 a.frame;
        measured_frames = if measured then next64 a.measured_frames else a.measured_frames;
        measured_presented =
            if measured && has_swapped r a
            then next64 a.measured_presented
            else a.measured_presented;
        timers =
            if is_offscreen a.pacing
            then record a.timers { since_sync = a.timers.since_sync +ℤ pos 1 }
            else a.timers;
      }

  -- lines 1540 to 1545, `record_cpu_submit` and `record_frame_metrics`
  unfoldable pub record_frame : Answers double → App double → App double
  unfolding record_metric
  record_frame r a =
      let warmup = a.timers.warmup in
      let thousand = decimal (pos 10000) 1 in
      record a {
        submit_samples =
            record_metric double warmup r.query_end (elapsed_ms r.query_end r.query_start)
              a.submit_samples;
        frame_samples =
            record_metric double warmup r.frame_end (elapsed_ms r.frame_end r.frame_start)
              a.frame_samples;
        draw_samples =
            record_metric double warmup r.frame_end (elapsed_ms r.draw_end r.draw_start)
              a.draw_samples;
        query_samples =
            record_metric double warmup r.frame_end
              (mul (add (sub r.query_begun r.query_start) (sub r.query_end r.query_ending))
                thousand)
              a.query_samples;
        swap_samples =
            if has_swapped r a
            then record_metric double warmup r.frame_end (elapsed_ms r.swap_end r.swap_start)
                a.swap_samples
            else a.swap_samples;
        timers = poll_gpu_timers double r.ended a.timers;
      }

  -- lines 1450 to 1546
  unfoldable pub draw_and_present : Answers double → App double → App double
  unfolding submit ask_frame present count_frame record_frame
  draw_and_present r a =
      let (presents, b) = present r (ask_frame r (submit r a)) in
      if presents then record_frame r (count_frame r b) else b

  unfoldable pub render : Answers double → App double → App double
  unfolding benchmark_expired can_draw draw_and_present
  render r a =
      if not a.running || benchmark_expired double a.start_sec a.duration_sec r.frame_start
      then record a { running = false }
      else if not a.render_visible && not (is_offscreen a.pacing)
      then a
      else let b = throttle r a in
        if can_draw b then draw_and_present r b else record b { running = false }

  -- `webos_visibility_changed`
  unfoldable pub visibility_changed : Answers double → Bool → App double → App double
  unfolding render
  visibility_changed r visible a =
      let a' = record a { render_visible = visible } in
      if not visible && is_some a.frame_cb
      then emit (drop_callback a.frame_cb) (record a' { frame_cb = none })
      else if visible && a.running && not (is_some a.frame_cb) && is_some a.egl_context
      then render r a'
      else a'

  -- `webos_close_requested`
  unfoldable pub close_requested : App double → App double
  close_requested a = record a { running = false }

  -- lines 1147 to 1158
  unfoldable pub take_callback : Answers double → Option Proxy → App double → App double
  unfolding record_metric
  take_callback r cb a = emit (drop_callback cb) (record a {
    callback_samples =
        if lt (decimal (pos 0) 1) a.last_callback_sec
        then record_metric double a.timers.warmup r.called (elapsed_ms r.called a.last_callback_sec)
            a.callback_samples
        else a.callback_samples;
    last_callback_sec = r.called;
    frame_cb = none;
  })

  -- `frame_done`, with the callback that it is handed
  unfoldable pub frame_done : Answers double → Option Proxy → App double → App double
  unfolding take_callback render
  frame_done r cb a =
      let b = take_callback r cb a in if a.running && a.render_visible then render r b else b

  unfoldable pub set_surface_opaque : Bool → App double → App double
  set_surface_opaque made a =
      if is_some a.compositor
        && is_some a.surface
        && ltb_ℤ (pos 0) a.width
        && ltb_ℤ (pos 0) a.height
        && made
      then emit (set_opaque a.width a.height ∷ []) a
      else a

  -- `wl_egl_window_resize`, where there is a window
  abbrev pub resizing : ℤ → ℤ → Option Proxy → List Effect
  resizing width height none = []
  resizing width height (some w) = resize_window w width height ∷ []

  -- lines 1562 to 1565
  abbrev pub take_size : ℤ → ℤ → App double → App double
  take_size width height a =
      if not a.force_4k && ltb_ℤ (pos 0) width && ltb_ℤ (pos 0) height
      then record a { width = width; height = height }
      else a

  -- `shell_configure`
  unfoldable pub shell_configure : Answers double → ℤ → ℤ → App double → App double
  unfolding set_surface_opaque
  shell_configure r width height a =
      let b = take_size width height a in
      let c = set_surface_opaque r.region (emit (resizing b.width b.height b.egl_window) b) in
      if is_some c.egl_context then emit (viewport c.width c.height ∷ []) c else c
