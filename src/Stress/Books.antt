-- ===== src/Stress/Books.antt =====
-- The counters of the GPU timers through any run of the stress client.
use webos_wayland.Base.{
  ℕ, List, ◌≡◌, sym, subst, ℤ, pos, Bool, not, ◌&&◌, ◌||◌, Option, some, ltb_ℤ, ◌==◌, is_some,
  if-intro,
}
use webos_wayland.Wayland.{Proxy}
use webos_wayland.Rect.Ui.{Pressed, left_button, key_esc, key_back}
use webos_wayland.Rect.Trace.{Remote, enter, leave, motion, button, focus, key}
use webos_wayland.Egl.{Floats}
use webos_wayland.Stress.Timers.{begin_gpu_timer, Timers, init_gpu_timer, no_timers}
use webos_wayland.Stress.State.{App, Answers, is_frame, is_offscreen}
use webos_wayland.Stress.Frame.{
  emit, render, visibility_changed, close_requested, frame_done, shell_configure, take_callback,
  throttle, can_draw, submit, ask_frame, present, count_frame, record_frame, draw_and_present,
  set_surface_opaque, take_size, resizing,
}
use webos_wayland.Stress.Metrics.{benchmark_expired}
use webos_wayland.Stress.Ui.{
  pointer_enter, pointer_leave, pointer_motion, pointer_button, keyboard_focus, keyboard_key,
  changes_theme,
}
use webos_wayland.Stress.Counts.{
  IsCounted, init_gpu_timer-IsCounted, poll_gpu_timers-IsCounted, throttle_offscreen-IsCounted,
  begin_gpu_timer-IsCounted, end_gpu_timer-IsCounted,
}
use webos_wayland.Stress.Trace.{
  Event, tick, frame, visibility, close, configure, remote, use_remote, handle, Reach, here, next,
}

module _ (double : Floats) where
  abbrev pub HasBooks : App double → Type 0
  HasBooks a = IsCounted double a.timers

  submit-HasBooks :
      (r : Answers double) (a : App double) → HasBooks a → HasBooks (submit double r a)
  unfolding submit
  submit-HasBooks r a c =
      end_gpu_timer-IsCounted double (begin_gpu_timer double r.begun r.timer_start a.timers).0
        (begin_gpu_timer double r.begun r.timer_start a.timers).1
        (begin_gpu_timer-IsCounted double r.begun r.timer_start a.timers c)

  ask_frame-HasBooks :
      (r : Answers double) (a : App double) → HasBooks a → HasBooks (ask_frame double r a)
  unfolding ask_frame
  ask_frame-HasBooks r a c = if-intro HasBooks (is_frame a.pacing) c c

  present-HasBooks :
      (r : Answers double) (a : App double) → HasBooks a → HasBooks (present double r a).1
  unfolding present
  present-HasBooks r a c =
      let P = λ (x : Bool × App double). HasBooks x.1 in
      if-intro P (is_offscreen a.pacing) c (if-intro P r.swaps c c)

  count_frame-HasBooks :
      (r : Answers double) (a : App double) → HasBooks a → HasBooks (count_frame double r a)
  unfolding count_frame
  count_frame-HasBooks r a c =
      if-intro (λ (t : Timers double). IsCounted double t) (is_offscreen a.pacing)
        (record { begun = c.begun; fits = c.fits }) c

  draw_and_present-HasBooks :
      (r : Answers double) (a : App double) → HasBooks a → HasBooks (draw_and_present double r a)
  unfolding draw_and_present record_frame
  draw_and_present-HasBooks r a c =
      let b = ask_frame double r (submit double r a) in
      let d =
        present-HasBooks r b (ask_frame-HasBooks r (submit double r a) (submit-HasBooks r a c)) in
      if-intro HasBooks (present double r b).0
        (poll_gpu_timers-IsCounted double r.ended
          (count_frame double r (present double r b).1).timers
          (count_frame-HasBooks r (present double r b).1 d))
        d

  throttle-HasBooks :
      (r : Answers double) (a : App double) → HasBooks a → HasBooks (throttle double r a)
  throttle-HasBooks r a c =
      throttle_offscreen-IsCounted double r.throttled r.waited
        (record a.timers { offscreen = is_offscreen a.pacing })
        (record { begun = c.begun; fits = c.fits })

  render-HasBooks :
      (r : Answers double) (a : App double) → HasBooks a → HasBooks (render double r a)
  unfolding render
  render-HasBooks r a c =
      let b = throttle double r a in
      let d = throttle-HasBooks r a c in
      if-intro HasBooks
        (not a.running || benchmark_expired double a.start_sec a.duration_sec r.frame_start) c
        (if-intro HasBooks (not a.render_visible && not (is_offscreen a.pacing)) c
          (if-intro HasBooks (can_draw double b) (draw_and_present-HasBooks r b d) d))

  visibility_changed-HasBooks :
      (r : Answers double) (visible : Bool) (a : App double)
      → HasBooks a
      → HasBooks (visibility_changed double r visible a)
  unfolding visibility_changed
  visibility_changed-HasBooks r visible a c =
      if-intro HasBooks (not visible && is_some a.frame_cb) c (
        if-intro HasBooks
          (visible && a.running && not (is_some a.frame_cb) && is_some a.egl_context)
          (render-HasBooks r (record a { render_visible = visible }) c) c)

  frame_done-HasBooks :
      (r : Answers double) (cb : Option Proxy) (a : App double)
      → HasBooks a
      → HasBooks (frame_done double r cb a)
  unfolding frame_done take_callback
  frame_done-HasBooks r cb a c =
      if-intro HasBooks (a.running && a.render_visible)
        (render-HasBooks r (take_callback double r cb a) c) c

  set_surface_opaque-HasBooks :
      (made : Bool) (a : App double) → HasBooks a → HasBooks (set_surface_opaque double made a)
  unfolding set_surface_opaque
  set_surface_opaque-HasBooks made a c =
      if-intro HasBooks
        (is_some a.compositor
          && is_some a.surface
          && ltb_ℤ (pos 0) a.width
          && ltb_ℤ (pos 0) a.height
          && made)
        c c

  shell_configure-HasBooks :
      (r : Answers double) (width height : ℤ) (a : App double)
      → HasBooks a
      → HasBooks (shell_configure double r width height a)
  unfolding shell_configure
  shell_configure-HasBooks r width height a c =
      let b = take_size double width height a in
      let b' = emit double (resizing double b.width b.height b.egl_window) b in
      let d =
        if-intro HasBooks (not a.force_4k && ltb_ℤ (pos 0) width && ltb_ℤ (pos 0) height) c c in
      let e = set_surface_opaque-HasBooks r.region b' d in
      if-intro HasBooks (is_some (set_surface_opaque double r.region b').egl_context) e e

  use_remote-HasBooks :
      (wl : Pressed) (e : Remote) (a : App double)
      → HasBooks a
      → HasBooks (use_remote double wl e a)
  unfolding use_remote pointer_enter pointer_leave pointer_motion pointer_button keyboard_focus
      keyboard_key
  use_remote-HasBooks wl (enter x y) a c = c
  use_remote-HasBooks wl leave a c = c
  use_remote-HasBooks wl (motion x y) a c = c
  use_remote-HasBooks wl (button b state x y) a c =
      if-intro HasBooks (b == left_button && (state == wl.button)) c c
  use_remote-HasBooks wl (focus on) a c = c
  use_remote-HasBooks wl (key k state) a c =
      if-intro HasBooks (state == wl.key)
        (if-intro HasBooks (k == key_esc || (k == key_back)) c
          (if-intro HasBooks (changes_theme double k) c c))
        c

  handle-HasBooks :
      (wl : Pressed) (e : Event double) (a : App double)
      → HasBooks a
      → HasBooks (handle double wl e a)
  unfolding handle close_requested
  handle-HasBooks wl (tick r) a c = render-HasBooks r a c
  handle-HasBooks wl (frame r cb) a c = frame_done-HasBooks r (some cb) a c
  handle-HasBooks wl (visibility r visible) a c = visibility_changed-HasBooks r visible a c
  handle-HasBooks wl close a c = c
  handle-HasBooks wl (configure r width height) a c = shell_configure-HasBooks r width height a c
  handle-HasBooks wl (remote e) a c = use_remote-HasBooks wl e a c

  run-HasBooks :
      (wl : Pressed) (first a : App double) → HasBooks first → Reach double wl first a → HasBooks a
  run-HasBooks wl first a c here = c
  run-HasBooks wl first _ c (next {a = b} e l h) =
      handle-HasBooks wl e b (run-HasBooks wl first b c l)

  -- From the zeroed app, with whatever GPU timers `init_gpu_timer` finds, through the first frame and
  -- any run of the loop after it, and whatever the driver answers, each query that was begun is
  -- completed or under way as far as the counters tell, and the samples fit into their list.
  pub Reach-HasBooks :
      (offscreen enabled present : Bool) (warmup : double.F) (batch : ℤ) (ids : Option (List ℕ))
      (wl : Pressed) (r : Answers double) (a b : App double)
      → a.timers
        ≡ init_gpu_timer double enabled present ids (no_timers double offscreen warmup batch)
      → Reach double wl (render double r a) b
      → IsCounted double b.timers
  Reach-HasBooks offscreen enabled present warmup batch ids wl r a b e reached =
      run-HasBooks wl (render double r a) b
        (render-HasBooks r a (
          subst (IsCounted double) (sym e)
            (init_gpu_timer-IsCounted double enabled present ids offscreen warmup batch)))
        reached
