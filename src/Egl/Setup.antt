-- ===== src/Egl/Setup.antt =====
-- native/wayland_egl.c, `init_egl` (lines 270 to 381) and `main` (lines 720 to 884): how the renderer
-- starts and ends.
use webos_wayland.Base.{
  ℕ, ℤ, pos, Bool, true, false, ◌&&◌, ◌||◌, Option, none, some, List, [], ◌∷◌, ◌++◌, if◌then◌else◌,
  ◌==◌, ltb_ℤ, is_some, String, str_eq,
}
use webos_wayland.Wayland.{Proxy}
use webos_wayland.Egl.{
  Floats, Effect, App, create_window, destroy_window, create_context, destroy_context,
  create_surface, destroy_surface, release_current, terminate, make_buffer, delete_buffer,
  delete_program, viewport, destroy_proxy, disconnect,
}
use webos_wayland.Egl.Config.{EglHeaders, Config as EglConfig, choose_config}
use webos_wayland.Egl.Program.{Built, make_program}
use webos_wayland.Egl.Frame.{Answers, drop_callback, render, set_surface_opaque}

-- What EGL, OpenGL ES and libwayland answer to `init_egl`, in the order of its calls.
pub record SetupAnswers : Type 0 where
  pub window : Option Proxy
  pub display : Option ℕ
  pub initialized : Bool
  pub api_bound : Bool
  pub configs : Option (List EglConfig)
  pub context : Option ℕ
  pub surface : Option ℕ
  pub is_current : Bool
  pub interval_set : Bool
  pub vertex_shader : Built
  pub fragment_shader : Built
  pub program : Built
  pub attr_pos : ℤ
  pub uni_angle : ℤ
  pub uni_offset : ℤ
  pub uni_color : ℤ
  pub buffer : ℕ

-- the effect of a call that may give nothing
abbrev pub on_some : {A E : Type 0} → (A → E) → Option A → List E
on_some f none = []
on_some f (some x) = f x ∷ []

-- EGL_LATENCY_MAX_SAMPLES doubles, where `calloc` gives them: nothing is recorded yet.
abbrev pub allocate_samples : {A : Type 0} → Bool → Option (List A)
allocate_samples true = some []
allocate_samples false = none

module _ (float double : Floats) where
  abbrev pub asks : List (Effect float) → App float double → App float double
  asks es a = record a { done = a.done ++ es }

  -- lines 271 to 300: the window, the display and the interface
  unfoldable pub open_display : SetupAnswers → App float double → Bool × App float double
  open_display r a =
      let b = asks (on_some create_window r.window) (record a { egl_window = r.window }) in
      if is_some r.window
      then (is_some r.display && r.initialized && r.api_bound, record b { egl_display = r.display })
      else (false, b)

  -- lines 302 to 345: configuration, context and surface
  unfoldable pub open_surface :
      EglHeaders → SetupAnswers → App float double → Bool × App float double
  open_surface egl r a = elim (choose_config egl a.color_mode r.configs) [
    | none ↦ (false, a)
    | some c ↦
        let b =
          asks (on_some create_context r.context)
            (record a { egl_config = some c; egl_context = r.context }) in
        if is_some r.context
        then (
          is_some r.surface && r.is_current && r.interval_set,
          asks (on_some create_surface r.surface) (record b { egl_surface = r.surface }),
        )
        else (false, b)
  ]

  -- lines 351 to 380: the program and the buffer
  unfoldable pub open_program : SetupAnswers → App float double → Bool × App float double
  open_program r a =
      let (p, es) = make_program float r.vertex_shader r.fragment_shader r.program in
      let b = asks es (record a { program = p }) in
      if p == 0
      then (false, b)
      else let c = record b {
        attr_pos = r.attr_pos;
        uni_angle = r.uni_angle;
        uni_offset = r.uni_offset;
        uni_color = r.uni_color;
      } in
        if ltb_ℤ r.attr_pos (pos 0)
          || ltb_ℤ r.uni_angle (pos 0)
          || ltb_ℤ r.uni_offset (pos 0)
          || ltb_ℤ r.uni_color (pos 0)
        then (false, c)
        else let d = asks (make_buffer r.buffer ∷ []) (record c { vbo = r.buffer }) in
          if r.buffer == 0 then (false, d) else (true, asks (viewport a.width a.height ∷ []) d)

  -- `init_egl`: the result is false for -1.
  unfoldable pub init_egl : EglHeaders → SetupAnswers → App float double → Bool × App float double
  init_egl egl r a =
      let (shown, b) = open_display r a in
      if shown
      then (let (drawn, c) = open_surface egl r b in if drawn then open_program r c else (false, c))
      else (false, b)

  -- lines 726 to 748: the lists of samples. `wanted` says that EGL_LATENCY_TRACE is 1.
  unfoldable pub trace_latency :
      Bool → Bool → Bool → Bool → Bool → App float double → App float double
  trace_latency wanted intervals submits swaps callbacks a =
      if wanted && intervals && submits && swaps && callbacks
      then record a {
        latency_trace = true;
        callback_intervals = allocate_samples intervals;
        input_submit_samples = allocate_samples submits;
        input_swap_samples = allocate_samples swaps;
        input_callback_samples = allocate_samples callbacks;
      }
      else a

  -- lines 749 to 760
  unfoldable pub color_mode : Option String → String
  color_mode none = "auto"
  color_mode (some mode) =
      if str_eq mode "auto" || str_eq mode "8888" || str_eq mode "rgb888" || str_eq mode "565"
      then mode
      else "auto"

  -- The app after `memset` and lines 749 to 773; the clock and the colour mode are what `main` reads.
  unfoldable pub start : String → App float double
  start mode = record {
    compositor = none;
    shell = none;
    surface = none;
    shell_surface = none;
    frame_cb = none;
    egl_window = none;
    egl_display = none;
    egl_context = none;
    egl_surface = none;
    egl_config = none;
    program = 0;
    vbo = 0;
    attr_pos = pos 0;
    uni_angle = pos 0;
    uni_offset = pos 0;
    uni_color = pos 0;
    width = pos 1920;
    height = pos 1080;
    running = true;
    render_visible = true;
    frame = 0;
    theme = 0;
    color_mode = mode;
    pointer_x = pos 960;
    pointer_y = pos 540;
    have_pointer = false;
    offset_x = float.decimal (pos 0) 1;
    offset_y = float.decimal (pos 0) 1;
    first_frame_time = 0;
    animation_time = float.decimal (pos 0) 1;
    have_frame_time = false;
    latency_trace = false;
    input_serial = 0;
    rendered_input_serial = 0;
    last_input_sec = double.decimal (pos 0) 1;
    last_callback_sec = double.decimal (pos 0) 1;
    callback_intervals = none;
    input_submit_samples = none;
    input_swap_samples = none;
    input_callback_samples = none;
    done = [];
  }

  -- The app that the registry hands to the rest of `main`: `compositor` and `shell` are what it bound.
  abbrev pub registered : Option Proxy → Option Proxy → App float double → App float double
  registered compositor shell a = record a { compositor = compositor; shell = shell }

  -- `main` from line 795 up to its loop: an exit code, or the app of the loop. `surface` and
  -- `shell_surface` are what libwayland makes, and the registry has filled `a`.
  unfoldable pub begin_loop :
      EglHeaders
      → SetupAnswers
      → Answers double
      → Option Proxy
      → Option Proxy
      → App float double
      → Option ℕ × App float double
  begin_loop egl setup r surface shell_surface a =
      if is_some a.compositor && is_some a.shell
      then (if is_some surface
          then (if is_some shell_surface
              then (let b =
                    set_surface_opaque float double r.region
                      (record a { surface = surface; shell_surface = shell_surface }) in
                  let (opened, c) = init_egl egl setup b in
                  if opened then (none, render float double r c) else (some 5, c))
              else (some 4, record a { surface = surface; shell_surface = none }))
          else (some 4, record a { surface = none }))
      else (some 3, a)

  -- lines 849 to 868: what EGL and OpenGL ES are given back
  unfoldable pub close_egl : App float double → List (Effect float)
  close_egl a =
      drop_callback float double a.frame_cb
      ++ (if a.vbo == 0 then [] else delete_buffer a.vbo ∷ [])
      ++ (if a.program == 0 then [] else delete_program a.program ∷ [])
      ++ (if is_some a.egl_display
          then (release_current ∷ [])
            ++ on_some destroy_surface a.egl_surface
            ++ on_some destroy_context a.egl_context
            ++ (terminate ∷ [])
          else [])
      ++ on_some destroy_window a.egl_window

  -- lines 871 to 876, less the registry, after the input and the webOS shell are destroyed
  unfoldable pub close_wayland : App float double → List (Effect float)
  close_wayland a =
      on_some destroy_proxy a.shell_surface
      ++ on_some destroy_proxy a.surface
      ++ on_some destroy_proxy a.shell
      ++ on_some destroy_proxy a.compositor
      ++ (disconnect ∷ [])

  -- What `main` asks for after its loop.
  unfoldable pub finish : App float double → App float double
  unfolding close_egl close_wayland
  finish a = asks (close_egl a ++ close_wayland a) a
