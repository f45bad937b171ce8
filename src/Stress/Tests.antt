-- ===== src/Stress/Tests.antt =====
-- The size that a run of the stress client asks for: the theorem at work.
use webos_wayland.Base.{
  ℕ, ◌≡◌, refl, pos, Bool, true, false, Option, none, some, is_some, total, String, str_eq, arith,
  if◌then◌else◌, List, [], ◌∷◌, ◌++◌, ◌||◌, not, ◌==◌, ◌+ℤ◌, ◌-ℤ◌,
}
use webos_wayland.Egl.Config.{
  EglHeaders, Config, is_suitable, has_bits, suits_mode, better, best_of, score,
  choose_config as choose_window_config,
}
use webos_wayland.Egl.Sample.{thousandths}
use webos_wayland.Stress.Timers.{
  Slot, Timers, Reply, Driver, Call, begins, ends, waits_for, finishes, init_gpu_timer, no_timers,
  begin_gpu_timer, throttle_offscreen, poll_gpu_timers,
}
use webos_wayland.Stress.Ring.{IsBlocking, WaitsForOldest, begin_gpu_timer-throttle_offscreen}
use webos_wayland.Rect.Ui.{Pressed}
use webos_wayland.Stress.Counts.{IsCounted, busy}
use webos_wayland.Stress.Draws.{Load, draw_frame, draw_count, is_multipass}
use webos_wayland.Stress.Switches.{is_switch, least, draw_frame-switches}
use webos_wayland.Stress.State.{App, Answers}
use webos_wayland.Stress.Frame.{
  render, visibility_changed, can_draw, draw_and_present, submit, ask_frame, present, count_frame,
  record_frame,
}
use webos_wayland.Stress.Trace.{tick, visibility, handle, here, next}
use webos_wayland.Stress.Books.{Reach-HasBooks}
use webos_wayland.Stress.Settings.{
  settings_of, configure_benchmark, is_forced, command_pressure, offscreen_pacing,
}
use webos_wayland.Stress.Within.{IsWithin, configure_benchmark-IsWithin}
use webos_wayland.Stress.Surface.{choose_config-surface}
use webos_wayland.Stress.Setup.{
  choose_config, Parsed, parse_resolution, preset_size, parse_positive_env,
}
use webos_wayland.Stress.Range.{InRange, parse_resolution-InRange}

-- reads "900", and nothing else
abbrev reads_900 : String → Parsed
reads_900 text =
    if str_eq text "900"
    then record { value = pos 900; is_empty = false; has_rest = false }
    else record { value = pos 0; is_empty = true; has_rest = true }

full_hd-InRange : InRange (pos 1920, pos 1080)
full_hd-InRange = record {
  wide = omega arith;
  narrow = omega arith;
  high = omega arith;
  low = omega arith;
}

parse_resolution-InRange_example : InRange (pos 2560, pos 900)
unfolding parse_resolution preset_size parse_positive_env
parse_resolution-InRange_example =
    parse_resolution-InRange reads_900 (some "1440p") (some "wide") (some "900")
      (pos 1920, pos 1080) full_hd-InRange refl

-- The second configuration has no pbuffer.
abbrev egl : EglHeaders
egl = record { window_bit = 4; opengl_es2_bit = 4; slow_config = 12368 }

abbrev config : ℕ → ℕ → Config
config handle surface = record {
  handle = handle;
  surface = surface;
  renderable = 4;
  red = 8;
  green = 8;
  blue = 8;
  alpha = 8;
  depth = 0;
  stencil = 0;
  caveat = 12344;
}

choose_config-surface_example :
    (has_bits 5 (if true then 1 else egl.window_bit) ≡ true)
    × (has_bits 4 egl.opengl_es2_bit ≡ true)
    × (not (12344 == egl.slow_config) ≡ true)
unfolding choose_config choose_window_config best_of better is_suitable suits_mode score ◌+ℤ◌ ◌-ℤ◌
choose_config-surface_example =
    choose_config-surface egl 1 true "8888" (config 1 4 ∷ config 2 5 ∷ []) refl

-- A ring of two timers, both under way.
abbrev slot : ℕ → ℕ → Slot thousandths
slot n sequence = record { id = n; active = true; started = 5000; sequence = sequence }

abbrev timers : Timers thousandths
timers = record {
  supported = true;
  offscreen = true;
  slots = slot 1 12 ∷ slot 2 11 ∷ [];
  warmup = 1000;
  tally = record { samples = 16000 ∷ []; completed = 10; discarded = 1 };
  sequence = 12;
  ring_full = 0;
  waits = 0;
  backpressure = 0;
  finish_count = 0;
  since_sync = pos 0;
  batch = pos 64;
  asked = [];
}

abbrev reply : Bool → Reply
reply available = record { available = available; nanoseconds = 4000000; disjoint = false }

-- A driver that has the results that it was made to wait for, and no others.
abbrev has_waited : List Call → ℕ → Bool
has_waited [] id = false
has_waited (c ∷ cs) id =
    elim c [ begins n ↦ false | ends ↦ false | waits_for n ↦ n == id | finishes ↦ false ]
    || has_waited cs id

abbrev patient : Driver
patient asked id = reply (has_waited asked id)

has_waited-waits_for :
    (asked : List Call) (id : ℕ) → has_waited (asked ++ (waits_for id ∷ [])) id ≡ true
has_waited-waits_for [] id = ground arith
has_waited-waits_for (c ∷ cs) id = ground (arith, has_waited-waits_for cs id)

patient-IsBlocking : IsBlocking thousandths patient
patient-IsBlocking = has_waited-waits_for

-- No query is ready until the throttle waits for the second one, which began first.
begin_gpu_timer-throttle_offscreen_example :
    WaitsForOldest thousandths []
      (throttle_offscreen thousandths patient patient timers).asked
      (poll_gpu_timers thousandths patient timers).slots
    × (is_some
          (begin_gpu_timer thousandths patient 9000
            (throttle_offscreen thousandths patient patient timers)).0
        ≡ true)
begin_gpu_timer-throttle_offscreen_example =
    begin_gpu_timer-throttle_offscreen thousandths patient patient patient 9000 timers refl refl
      (omega arith) patient-IsBlocking

abbrev wl : Pressed
wl = record { button = 1; key = 1 }

abbrev answers : Answers thousandths
answers = record {
  callback = some (record { id = 30; version = 1 });
  swaps = true;
  region = true;
  throttled = patient;
  waited = patient;
  begun = patient;
  ended = λ asked n. reply (n == 1);
  called = 9000;
  frame_start = 9000;
  query_start = 9001;
  timer_start = 9002;
  query_begun = 9003;
  draw_start = 9004;
  draw_end = 9005;
  query_ending = 9006;
  query_end = 9007;
  swap_start = 9008;
  swap_end = 9009;
  frame_end = 9010;
}

abbrev load : Load
load = record {
  workload = command_pressure;
  passes = 1;
  layers = 1;
  draws = 5;
  sprites = 1;
  batch = false;
  program_switches = 3;
  has_alt = true;
  vertex_count = 6;
}

-- two timers, none begun
abbrev ring : Timers thousandths
ring =
    init_gpu_timer thousandths true true (some (1 ∷ 2 ∷ []))
      (no_timers thousandths true 1000 (pos 64))

abbrev app : App thousandths
app = record {
  pacing = offscreen_pacing;
  load = load;
  timers = ring;
  compositor = none;
  surface = none;
  frame_cb = none;
  egl_window = none;
  egl_context = some 3;
  fbo = 1;
  multipass_texture_b = 0;
  source_texture = 0;
  target_texture = 0;
  width = pos 3840;
  height = pos 2160;
  force_4k = true;
  running = true;
  render_visible = true;
  frame = 0;
  presented = 0;
  measured_frames = 0;
  measured_presented = 0;
  theme = 0;
  pointer_x = pos 0;
  pointer_y = pos 0;
  start_sec = 0;
  duration_sec = 0;
  last_callback_sec = 0;
  submit_samples = [];
  draw_samples = [];
  query_samples = [];
  swap_samples = [];
  frame_samples = [];
  callback_samples = [];
  done = [];
}

-- The first frame, another one, the window hidden, and a frame more.
Reach-HasBooks_example :
    IsCounted thousandths
      (handle thousandths wl (tick answers) (
        handle thousandths wl
          (visibility answers false)
          (handle thousandths wl (tick answers) (render thousandths answers app)))).timers
unfolding busy handle visibility_changed render can_draw draw_and_present submit ask_frame present
    count_frame record_frame
Reach-HasBooks_example =
    Reach-HasBooks thousandths true true true 1000 (pos 64) (some (1 ∷ 2 ∷ [])) wl answers app _
      refl
      (next (tick answers) (next (visibility answers false) (next (tick answers) here refl) tt)
        refl)

-- Five draws and three switches.
draw_frame-switches_example : total is_switch (draw_frame load 1 2).0 ≡ least 4 3
unfolding is_multipass draw_count
draw_frame-switches_example = draw_frame-switches load 1 2 refl refl (omega arith)

abbrev environment : String → Option String
environment name =
    if str_eq name "STRESS_WORKLOAD"
    then some "blur"
    else if str_eq name "STRESS_HEIGHT"
    then some "900"
    else none

configure_benchmark-IsWithin_example :
    IsWithin (settings_of reads_900 (λ s. pos 1) environment (pos 3840, pos 900))
unfolding configure_benchmark settings_of parse_resolution preset_size parse_positive_env is_forced
configure_benchmark-IsWithin_example =
    configure_benchmark-IsWithin reads_900 (λ s. pos 1) environment
      (settings_of reads_900 (λ s. pos 1) environment (pos 3840, pos 900)) refl
