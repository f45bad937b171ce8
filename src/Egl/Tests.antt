-- ===== src/Egl/Tests.antt =====
-- A display with three configurations and a run of the renderer: the theorems at work.
use webos_wayland.Base.{
  ℕ, ◌+◌, ◌≡◌, refl, pos, false, total, arith, ◌≤ℤ◌, ◌+ℤ◌, ◌-ℤ◌, true, is_some, none, some, List,
  [], ◌∷◌, get_elem?,
}
use webos_wayland.Wayland.{Proxy}
use webos_wayland.Rect.Ui.{Pressed}
use webos_wayland.Rect.Trace.{key}
use webos_wayland.Egl.{App}
use webos_wayland.Egl.Program.{Built, make_program, compile_shader, link_program}
use webos_wayland.Egl.Setup.{
  SetupAnswers, begin_loop, init_egl, open_display, open_surface, open_program, start,
  trace_latency, registered, finish,
}
use webos_wayland.Egl.Latency.{latency_record, log_metric}
use webos_wayland.Egl.Frame.{
  Answers, render, record_submit, drawing, colors, set_surface_opaque, frame_done, record_callback,
  advance, visibility_changed,
}
use webos_wayland.Egl.Ui.{keyboard_key, key_moves, limited}
use webos_wayland.Egl.Trace.{
  Event, frame, visibility, remote, handle, use_remote, Reach, here, next,
}
use webos_wayland.Egl.Sample.{thousandths}
use webos_wayland.Egl.Kinds.{made, given_up, callbacks, shaders}
use webos_wayland.Egl.Making.{make_program-total, held_program}
use webos_wayland.Egl.Bounds.{IsBounded, Reach-IsBounded}
use webos_wayland.Egl.Hidden.{Reach-IsQuiet, submitted, submitted-render-render}
use webos_wayland.Egl.Percentiles.{log_metric-is_some}
use webos_wayland.Egl.Lifetime.{finish-gives_up_all}
use webos_wayland.Egl.Config.{
  EglHeaders, Config, is_suitable, suits_mode, score, better, best_of, choose_config, no_score,
}
use webos_wayland.Egl.Best.{choose_config-best, choose_config-none}

abbrev egl : EglHeaders
egl = record { window_bit = 4; opengl_es2_bit = 4; slow_config = 12368 }

abbrev config : ℕ → ℕ → ℕ → ℕ → Config
config handle bits alpha depth = record {
  handle = handle;
  surface = 4;
  renderable = 4;
  red = bits;
  green = bits;
  blue = bits;
  alpha = alpha;
  depth = depth;
  stencil = 0;
  caveat = 12344;
}

abbrev configs : List Config
configs = config 1 8 8 0 ∷ config 2 8 0 24 ∷ config 3 8 0 0 ∷ []

choose_config-best_example :
    (is_suitable egl "auto" (config 3 8 0 0) ≡ true)
    × ((j : ℕ) × (get_elem? configs j ≡ some (config 3 8 0 0)))
    × (score "auto" (config 1 8 8 0) ≤ℤ score "auto" (config 3 8 0 0))
unfolding choose_config best_of better is_suitable suits_mode score ◌+ℤ◌ ◌-ℤ◌
choose_config-best_example = choose_config-best egl "auto" configs 0 refl refl refl

-- A configuration with so much depth that the loop does not take it.
choose_config-none_example : score "auto" (config 1 8 0 200000) ≤ℤ no_score
unfolding choose_config best_of better is_suitable suits_mode score ◌+ℤ◌ ◌-ℤ◌
choose_config-none_example =
    choose_config-none egl "auto" (config 1 8 0 200000 ∷ []) 0 refl refl refl

abbrev wl : Pressed
wl = record { button = 1; key = 1 }

abbrev built : ℕ → Built
built n = record { name = n; works = true }

abbrev setup : SetupAnswers
setup = record {
  window = some (record { id = 1; version = 1 });
  display = some 2;
  initialized = true;
  api_bound = true;
  configs = some configs;
  context = some 3;
  surface = some 4;
  is_current = true;
  interval_set = true;
  vertex_shader = built 5;
  fragment_shader = built 6;
  program = built 7;
  attr_pos = pos 0;
  uni_angle = pos 1;
  uni_offset = pos 2;
  uni_color = pos 3;
  buffer = 8;
}

abbrev proxy : ℕ → Proxy
proxy n = record { id = n; version = 1 }

abbrev answers : ℕ → ℕ → Answers thousandths
answers n time = record {
  callback = some (proxy n);
  swaps = true;
  region = true;
  called = time;
  started = time + 1;
  swapped = time + 2;
}

abbrev registered_app : App thousandths thousandths
registered_app = registered thousandths thousandths (some (proxy 20)) (some (proxy 21)) (
    trace_latency thousandths thousandths true true true true true
      (start thousandths thousandths "auto"))

abbrev first : App thousandths thousandths
first =
    (begin_loop thousandths thousandths egl setup (answers 30 0) (some (proxy 22)) (some (proxy 23))
      registered_app).1

-- A key, the frame that was asked for, and the window hidden.
abbrev run : List (Event thousandths)
run =
    visibility (answers 32 9) false ∷ frame (answers 31 5) (proxy 30) 16 ∷ remote 3 (key 106 1) ∷ []

abbrev after : List (Event thousandths) → App thousandths thousandths
after [] = first
after (e ∷ es) = handle thousandths thousandths wl e (after es)

reached : Reach thousandths thousandths wl first (after run)
unfolding handle begin_loop init_egl open_display open_surface open_program make_program
    compile_shader link_program render record_submit drawing colors start trace_latency
    set_surface_opaque choose_config best_of better is_suitable suits_mode score ◌+ℤ◌ ◌-ℤ◌
    frame_done record_callback advance visibility_changed use_remote keyboard_key key_moves limited
    latency_record
reached =
    next (visibility (answers 32 9) false)
      (next (frame (answers 31 5) (proxy 30) 16) (next (remote 3 (key 106 1)) here tt) refl) tt

finish-gives_up_all_example :
    total
      (made thousandths thousandths callbacks 31)
      (finish thousandths thousandths (after run)).done
    ≡ total
        (given_up thousandths thousandths callbacks 31)
        (finish thousandths thousandths (after run)).done
unfolding begin_loop init_egl open_display open_surface open_program make_program compile_shader
    link_program render record_submit drawing colors start trace_latency set_surface_opaque
    choose_config best_of better is_suitable suits_mode score ◌+ℤ◌ ◌-ℤ◌
finish-gives_up_all_example =
    finish-gives_up_all thousandths thousandths callbacks 31 egl setup (answers 30 0)
      (some (proxy 22)) (some (proxy 23)) (some (proxy 20)) (some (proxy 21)) true true true true
      true "auto" wl first (after run) refl reached

Reach-IsBounded_example : IsBounded thousandths thousandths (after run)
unfolding begin_loop init_egl open_display open_surface open_program make_program compile_shader
    link_program render record_submit drawing colors start trace_latency set_surface_opaque
    choose_config best_of better is_suitable suits_mode score ◌+ℤ◌ ◌-ℤ◌
Reach-IsBounded_example =
    Reach-IsBounded thousandths thousandths egl setup (answers 30 0) (some (proxy 22))
      (some (proxy 23)) (some (proxy 20)) (some (proxy 21)) true true true true true "auto" wl first
      (after run) refl reached

Reach-IsQuiet_example : (after run).frame_cb ≡ none
unfolding begin_loop init_egl open_display open_surface open_program make_program compile_shader
    link_program render record_submit drawing colors start trace_latency set_surface_opaque
    choose_config best_of better is_suitable suits_mode score ◌+ℤ◌ ◌-ℤ◌ frame_done record_callback
    advance visibility_changed use_remote keyboard_key key_moves limited latency_record handle
Reach-IsQuiet_example =
    Reach-IsQuiet thousandths thousandths egl setup (answers 30 0) (some (proxy 22))
      (some (proxy 23)) (some (proxy 20)) (some (proxy 21)) true true true true true "auto" wl first
      (after run) refl reached refl

submitted-render-render_example :
    submitted thousandths thousandths (
      render thousandths thousandths
        (answers 34 30)
        (render thousandths thousandths (answers 33 20) (after (remote 3 (key 106 1) ∷ []))))
    ≡ submitted thousandths thousandths
        (render thousandths thousandths (answers 33 20) (after (remote 3 (key 106 1) ∷ [])))
submitted-render-render_example =
    submitted-render-render thousandths thousandths (answers 33 20) (answers 34 30)
      (after (remote 3 (key 106 1) ∷ []))

log_metric-is_some_example :
    is_some (log_metric thousandths (λ l. l) true true (some (16000 ∷ 17000 ∷ 41000 ∷ []))) ≡ true
log_metric-is_some_example =
    log_metric-is_some thousandths (λ l. l) true true (some (16000 ∷ 17000 ∷ 41000 ∷ []))
      (λ l. refl) (omega arith) (λ n h. omega arith) (λ n h. omega arith) (λ n h. omega arith)

make_program-total_example :
    total
      (made thousandths thousandths shaders 5)
      (make_program thousandths (built 5) (record { name = 6; works = false }) (built 7)).1
    ≡ total
        (given_up thousandths thousandths shaders 5)
        (make_program thousandths (built 5) (record { name = 6; works = false }) (built 7)).1
      + held_program thousandths thousandths shaders 5
          (make_program thousandths (built 5) (record { name = 6; works = false }) (built 7)).0
make_program-total_example =
    make_program-total thousandths thousandths shaders 5 (built 5)
      (record { name = 6; works = false }) (built 7)
