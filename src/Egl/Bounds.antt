-- ===== src/Egl/Bounds.antt =====
-- The lists of samples never outgrow what `main` allocated for them.
use webos_wayland.Base.{
  ℕ, true, false, String, ◌+◌, ◌≤◌, ◌≡◌, refl, Bool, not, ◌&&◌, Option, none, some, List, [], ◌∷◌,
  ◌++◌, length, arith, Bool-cases, inl, inr, is_some, ◌==◌, if-intro, ap,
}
use webos_wayland.Wayland.{Proxy}
use webos_wayland.Rect.Ui.{Pressed}
use webos_wayland.Egl.{Floats, App}
use webos_wayland.Egl.Latency.{latency_record, latency_max_samples}
use webos_wayland.Egl.Frame.{
  Answers, record_submit, render, record_callback, advance, visibility_changed, close_requested,
  frame_done, take_callback, draw_frame, is_set,
}
use webos_wayland.Egl.Config.{EglHeaders}
use webos_wayland.Egl.Setup.{
  SetupAnswers, begin_loop, registered, trace_latency, start, allocate_samples,
}
use webos_wayland.Egl.Begin.{begin_loop-keeps, watched}
use webos_wayland.Egl.Keeps.{Keeps, quiet-Keeps, use_remote-Keeps, shell_configure-Keeps}
use webos_wayland.Egl.Trace.{
  Event, frame, visibility, close, configure, remote, handle, Reach, here, next,
}

abbrev pub count : {A : Type 0} → Option (List A) → ℕ
count none = 0
count (some l) = length l

length-snoc : {A : Type 0} (l : List A) (x : A) → length (l ++ (x ∷ [])) ≡ length l + 1
length-snoc [] x = omega arith
length-snoc (y ∷ l) x = omega (arith, length-snoc l x)

pub latency_record-fits :
    {A : Type 0} (s : Option (List A)) (x : A)
    → count s ≤ latency_max_samples
    → count (latency_record s x) ≤ latency_max_samples
unfolding latency_record
latency_record-fits none x h = h
latency_record-fits (some l) x h = ground (arith, h, length-snoc l x)

module _ (float double : Floats) where
  pub record IsBounded (a : App float double) : Type 0 where
    pub intervals : count a.callback_intervals ≤ latency_max_samples
    pub submits : count a.input_submit_samples ≤ latency_max_samples
    pub swaps : count a.input_swap_samples ≤ latency_max_samples
    pub callbacks : count a.input_callback_samples ≤ latency_max_samples

  record_submit-IsBounded :
      (r : Answers double) (a : App float double)
      → IsBounded a
      → IsBounded (record_submit float double r a)
  unfolding record_submit
  record_submit-IsBounded r a b =
      elim (Bool-cases (
        a.latency_trace
        && not (a.input_serial == a.rendered_input_serial)
        && is_set float double a.last_input_sec)) [
          | inl e ↦
              rw (record_submit, e)
                (record {
                  intervals = b.intervals;
                  submits = latency_record-fits a.input_submit_samples _ b.submits;
                  swaps = latency_record-fits a.input_swap_samples _ b.swaps;
                  callbacks = b.callbacks;
                })
          | inr e ↦ rw (record_submit, e) b
        ]

  render-IsBounded :
      (r : Answers double) (a : App float double)
      → IsBounded a
      → IsBounded (render float double r a)
  unfolding render
  render-IsBounded r a b =
      if-intro IsBounded (a.running && a.render_visible)
        (record_submit-IsBounded r (draw_frame float double r a) (record {
          intervals = b.intervals;
          submits = b.submits;
          swaps = b.swaps;
          callbacks = b.callbacks;
        }))
        b

  -- The samples decide.
  same-IsBounded : (a a' : App float double) → Keeps float double a a' → IsBounded a → IsBounded a'
  same-IsBounded a a' k b = record {
    intervals = rw (ap (λ c. c.intervals) k.same) b.intervals;
    submits = rw (ap (λ c. c.submits) k.same) b.submits;
    swaps = rw (ap (λ c. c.swaps) k.same) b.swaps;
    callbacks = rw (ap (λ c. c.callbacks) k.same) b.callbacks;
  }

  record_callback-IsBounded :
      (r : Answers double) (a : App float double)
      → IsBounded a
      → IsBounded (record_callback float double r a)
  unfolding record_callback
  record_callback-IsBounded r a b =
      let fits = λ (s : Option (List double.F)). count s ≤ latency_max_samples in
      if-intro IsBounded a.latency_trace
        (record {
          intervals =
              if-intro fits (is_set float double a.last_callback_sec)
                (latency_record-fits a.callback_intervals _ b.intervals) b.intervals;
          submits = b.submits;
          swaps = b.swaps;
          callbacks =
              if-intro fits
                (is_set float double a.last_input_sec
                  && not (a.input_serial == a.rendered_input_serial))
                (latency_record-fits a.input_callback_samples _ b.callbacks) b.callbacks;
        })
        b

  frame_done-IsBounded :
      (r : Answers double) (cb : Option Proxy) (time : ℕ) (a : App float double)
      → IsBounded a
      → IsBounded (frame_done float double r cb time a)
  unfolding frame_done advance
  frame_done-IsBounded r cb time a b =
      let c = record_callback-IsBounded r a b in
      if-intro IsBounded (a.running && a.render_visible) {y = take_callback float double r cb a}
        (render-IsBounded r (advance float double time (take_callback float double r cb a))
          (record {
            intervals = c.intervals;
            submits = c.submits;
            swaps = c.swaps;
            callbacks = c.callbacks;
          }))
        (record {
          intervals = c.intervals;
          submits = c.submits;
          swaps = c.swaps;
          callbacks = c.callbacks;
        })

  visibility_changed-IsBounded :
      (r : Answers double) (visible : Bool) (a : App float double)
      → IsBounded a
      → IsBounded (visibility_changed float double r visible a)
  unfolding visibility_changed
  visibility_changed-IsBounded r visible a b =
      let c : IsBounded (record a { render_visible = visible }) = record {
        intervals = b.intervals;
        submits = b.submits;
        swaps = b.swaps;
        callbacks = b.callbacks;
      } in
      if-intro IsBounded (not visible && is_some a.frame_cb)
        (record {
          intervals = b.intervals;
          submits = b.submits;
          swaps = b.swaps;
          callbacks = b.callbacks;
        })
        (if-intro IsBounded
          (visible && a.running && not (is_some a.frame_cb) && is_some a.egl_context)
          (render-IsBounded r (record a { render_visible = visible }) c) c)

  handle-IsBounded :
      (wl : Pressed) (e : Event double) (a : App float double)
      → IsBounded a
      → IsBounded (handle float double wl e a)
  unfolding handle close_requested
  handle-IsBounded wl (frame r cb time) a b = frame_done-IsBounded r (some cb) time a b
  handle-IsBounded wl (visibility r visible) a b = visibility_changed-IsBounded r visible a b
  handle-IsBounded wl close a b = same-IsBounded a _ (quiet-Keeps float double a _ refl refl) b
  handle-IsBounded wl (configure r width height) a b =
      same-IsBounded a _ (shell_configure-Keeps float double r width height a) b
  handle-IsBounded wl (remote now e) a b =
      same-IsBounded a _ (use_remote-Keeps float double wl now e a) b

  run-IsBounded :
      (wl : Pressed) (first : App float double) {a : App float double}
      → IsBounded first
      → Reach float double wl first a
      → IsBounded a
  run-IsBounded wl first b here = b
  run-IsBounded wl first b (next {a} e r h) = handle-IsBounded wl e a (run-IsBounded wl first b r)

  -- What was just allocated has nothing in it yet.
  count-allocate_samples :
      (A : Type 0) (made : Bool) → count (allocate_samples {A = A} made) ≤ latency_max_samples
  count-allocate_samples A true = omega arith
  count-allocate_samples A false = omega arith

  start-IsBounded :
      (compositor shell : Option Proxy) (wanted intervals submits swaps answers : Bool)
      (mode : String)
      → IsBounded (
          registered float double compositor shell (
            trace_latency float double wanted intervals submits swaps answers
              (start float double mode)))
  unfolding start trace_latency
  start-IsBounded compositor shell wanted intervals submits swaps answers mode =
      if-intro (λ (a : App float double). IsBounded (registered float double compositor shell a))
        (wanted && intervals && submits && swaps && answers)
        (record {
          intervals = count-allocate_samples double.F intervals;
          submits = count-allocate_samples double.F submits;
          swaps = count-allocate_samples double.F swaps;
          callbacks = count-allocate_samples double.F answers;
        })
        (record {
          intervals = omega arith;
          submits = omega arith;
          swaps = omega arith;
          callbacks = omega arith;
        })

  watched-IsBounded :
      (b c : App float double)
      → watched float double c ≡ watched float double b
      → IsBounded b
      → IsBounded c
  watched-IsBounded b c same h = record {
    intervals = rw (ap (λ w. w.intervals) same) h.intervals;
    submits = rw (ap (λ w. w.submits) same) h.submits;
    swaps = rw (ap (λ w. w.swaps) same) h.swaps;
    callbacks = rw (ap (λ w. w.callbacks) same) h.callbacks;
  }

  -- When `main` gets to its loop, no run of the loop records more samples than were allocated.
  pub Reach-IsBounded :
      (egl : EglHeaders) (setup : SetupAnswers) (r : Answers double)
      (surface shell_surface compositor shell : Option Proxy)
      (wanted intervals submits swaps answers : Bool) (mode : String) (wl : Pressed)
      (first a : App float double)
      → begin_loop float double egl setup r surface shell_surface (
          registered float double compositor shell (
            trace_latency float double wanted intervals submits swaps answers
              (start float double mode)))
        ≡ (none, first)
      → Reach float double wl first a
      → IsBounded a
  Reach-IsBounded egl setup r surface shell_surface compositor shell wanted intervals submits swaps
        answers mode wl first a opened reached =
      run-IsBounded wl first
        (begin_loop-keeps float double IsBounded egl setup r surface shell_surface
          (registered float double compositor shell (
            trace_latency float double wanted intervals submits swaps answers
              (start float double mode)))
          first watched-IsBounded render-IsBounded
          (start-IsBounded compositor shell wanted intervals submits swaps answers mode) opened)
        reached
