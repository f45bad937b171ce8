-- ===== src/Stress/Settings.antt =====
-- native/wayland_egl_stress.c, `configure_benchmark` (lines 1685 to 1862): what the environment asks for.
use webos_wayland.Base.{
  ℕ, ℤ, pos, Bool, true, false, not, ◌||◌, Option, none, some, List, [], ◌∷◌, if◌then◌else◌, ◌==◌,
  negsuc, String, str_eq, ◌>>=◌,
}
use webos_wayland.Stress.Setup.{Parsed, parse_positive_env, parse_resolution}

-- `enum stress_pacing`
pub data Pacing : Type 0 where
  frame_pacing : Pacing
  swap_pacing : Pacing
  offscreen_pacing : Pacing
  pbuffer_pacing : Pacing

-- `enum stress_workload`
pub data Workload : Type 0 where
  alu : Workload
  sfu : Workload
  bandwidth : Workload
  fill : Workload
  overdraw : Workload
  multipass_copy : Workload
  multipass_alu : Workload
  multipass_effect : Workload
  blur : Workload
  command_pressure : Workload
  sprite_load : Workload

-- `enum stress_blend_mode`
pub data Blend : Type 0 where
  blend_none : Blend
  blend_alpha : Blend
  blend_premultiplied : Blend
  blend_additive : Blend

-- What `configure_benchmark` sets, less the names of the pacing and the workload, which are
-- `pacing_name` and `workload_name` of them.
pub record Settings : Type 0 where
  pub pacing : Pacing
  pub workload : Workload
  pub iterations : ℤ
  pub layers : ℤ
  pub draws : ℤ
  pub sprites : ℤ
  pub passes : ℤ
  pub program_switches : ℤ
  pub texture_samples : ℤ
  pub blur_taps : ℤ
  pub batch : ℤ
  pub offscreen_batch : ℤ
  pub timer_slots : ℤ
  pub texture_pattern : String
  pub texture_size : ℤ
  pub texture_filter : String
  pub texture_format : String
  pub texture_layout_atlas : Bool
  pub texture_format_effective : String
  pub blend_mode : Blend
  pub output_mode : String
  pub requested_highp : Bool
  pub color_mode : String
  pub priority_mode : String
  pub force_4k : Bool
  pub size : ℤ × ℤ

-- lines 1686 to 1703
unfoldable pub pacing_of : Option String → Pacing
pacing_of none = frame_pacing
pacing_of (some name) =
    if str_eq name "frame"
    then frame_pacing
    else if str_eq name "swap"
    then swap_pacing
    else if str_eq name "offscreen"
    then offscreen_pacing
    else if str_eq name "pbuffer" || str_eq name "surfaceless"
    then pbuffer_pacing
    else frame_pacing

abbrev pub pacing_name : Pacing → String
pacing_name frame_pacing = "frame"
pacing_name swap_pacing = "swap"
pacing_name offscreen_pacing = "offscreen"
pacing_name pbuffer_pacing = "pbuffer"

-- lines 1705 to 1743
unfoldable pub workload_of : Option String → Workload
workload_of none = alu
workload_of (some name) =
    if str_eq name "alu"
    then alu
    else if str_eq name "sfu"
    then sfu
    else if str_eq name "bandwidth"
    then bandwidth
    else if str_eq name "fill"
    then fill
    else if str_eq name "overdraw"
    then overdraw
    else if str_eq name "multipass_copy"
    then multipass_copy
    else if str_eq name "multipass_alu"
    then multipass_alu
    else if str_eq name "multipass" || str_eq name "multipass_effect"
    then multipass_effect
    else if str_eq name "blur"
    then blur
    else if str_eq name "drawcalls" || str_eq name "command_pressure"
    then command_pressure
    else if str_eq name "sprites"
    then sprite_load
    else alu

abbrev pub workload_name : Workload → String
workload_name alu = "alu"
workload_name sfu = "sfu"
workload_name bandwidth = "bandwidth"
workload_name fill = "fill"
workload_name overdraw = "overdraw"
workload_name multipass_copy = "multipass_copy"
workload_name multipass_alu = "multipass_alu"
workload_name multipass_effect = "multipass_effect"
workload_name blur = "blur"
workload_name command_pressure = "command_pressure"
workload_name sprite_load = "sprites"

abbrev pub is_one_of : List String → String → Bool
is_one_of [] name = false
is_one_of (n ∷ ns) name = str_eq name n || is_one_of ns name

-- The variable where it is one of the known modes, else the fallback; `copy_mode` truncates none of
-- these.
unfoldable pub mode_of : List String → String → Option String → String
mode_of known fallback none = fallback
mode_of known fallback (some name) = if is_one_of known name then name else fallback

abbrev pub patterns : List String
patterns = "coherent" ∷ "stride" ∷ "randomish" ∷ []

abbrev pub filters : List String
filters = "nearest" ∷ "linear" ∷ "trilinear" ∷ []

abbrev pub formats : List String
formats = "rgba8888" ∷ "rgb565" ∷ "etc2" ∷ "astc" ∷ []

abbrev pub outputs : List String
outputs = "human" ∷ "jsonl" ∷ "tsv" ∷ []

abbrev pub color_modes : List String
color_modes = "auto" ∷ "8888" ∷ "rgb888" ∷ "565" ∷ []

abbrev pub priorities : List String
priorities = "default" ∷ "high" ∷ []

-- lines 1791 to 1798
unfoldable pub effective_format : String → String
effective_format format =
    if str_eq format "etc2" || str_eq format "astc" then "rgba8888-fallback" else format

-- lines 1799 to 1811
unfoldable pub blend_of : Option String → Blend
blend_of none = blend_none
blend_of (some name) =
    if str_eq name "none" || str_eq name "off"
    then blend_none
    else if str_eq name "alpha"
    then blend_alpha
    else if str_eq name "premultiplied"
    then blend_premultiplied
    else if str_eq name "additive"
    then blend_additive
    else blend_none

-- lines 1820 to 1826
unfoldable pub highp_of : Option String → Bool
highp_of none = true
highp_of (some name) = not (str_eq name "mediump")

-- STRESS_TEXTURE_LAYOUT is "atlas".
unfoldable pub is_atlas : Option String → Bool
is_atlas none = false
is_atlas (some name) = str_eq name "atlas"

-- lines 1845 and 1846, with `atoi` as a parameter
unfoldable pub is_forced : (String → ℤ) → Option String → Bool
is_forced atoi none = true
is_forced atoi (some text) = elim (atoi text) [ pos n ↦ not (n == 0) | negsuc n ↦ true ]

abbrev pub first_size : Bool → ℤ × ℤ
first_size true = (pos 3840, pos 2160)
first_size false = (pos 1920, pos 1080)

abbrev pub default_passes : Workload → ℤ
default_passes w = elim w [ blur ↦ pos 2 | _ ↦ pos 1 ]

module _ (strtol : String → Parsed) (atoi : String → ℤ) where
  -- what is set for a size
  unfoldable pub settings_of : (String → Option String) → ℤ × ℤ → Settings
  unfolding parse_positive_env mode_of
  settings_of getenv size =
      let number = λ (name : String) (fallback lo hi : ℕ).
        parse_positive_env strtol (getenv name) (pos fallback) (pos lo) (pos hi) in
      let workload = workload_of (getenv "STRESS_WORKLOAD") in
      let format = mode_of formats "rgba8888" (getenv "STRESS_TEXTURE_FORMAT") in
      record {
        pacing = pacing_of (getenv "STRESS_PACING");
        workload = workload;
        iterations = number "STRESS_ITERS" 1 1 64;
        layers = number "STRESS_LAYERS" 1 1 64;
        draws = number "STRESS_DRAWS" 1 1 2000;
        sprites = number "STRESS_SPRITES" 100 1 2000;
        passes =
            parse_positive_env strtol (getenv "STRESS_PASSES") (default_passes workload) (pos 1)
              (pos 16);
        program_switches = number "STRESS_PROGRAM_SWITCHES" 0 0 2000;
        texture_samples = number "STRESS_TEXTURE_SAMPLES" 1 1 64;
        blur_taps = number "STRESS_BLUR_TAPS" 5 3 9;
        batch = number "STRESS_BATCH" 0 0 1;
        offscreen_batch = number "STRESS_OFFSCREEN_BATCH" 64 1 4096;
        timer_slots = number "STRESS_TIMER_SLOTS" 8 1 128;
        texture_pattern = mode_of patterns "coherent" (getenv "STRESS_TEXTURE_PATTERN");
        texture_size = number "STRESS_TEXTURE_SIZE" 256 64 8192;
        texture_filter = mode_of filters "nearest" (getenv "STRESS_FILTER");
        texture_format = format;
        texture_layout_atlas = is_atlas (getenv "STRESS_TEXTURE_LAYOUT");
        texture_format_effective = effective_format format;
        blend_mode = blend_of (getenv "STRESS_BLEND");
        output_mode = mode_of outputs "human" (getenv "STRESS_OUTPUT");
        requested_highp = highp_of (getenv "STRESS_PRECISION");
        color_mode = mode_of color_modes "auto" (getenv "EGL_COLOR_MODE");
        priority_mode = mode_of priorities "default" (getenv "EGL_CONTEXT_PRIORITY");
        force_4k = is_forced atoi (getenv "STRESS_FORCE_4K");
        size = size;
      }

  -- `configure_benchmark` on `getenv`; `none` for -1
  unfoldable pub configure_benchmark : (String → Option String) → Option Settings
  unfolding parse_resolution
  configure_benchmark getenv = do
    size ←
        parse_resolution strtol (getenv "STRESS_RESOLUTION") (getenv "STRESS_WIDTH")
          (getenv "STRESS_HEIGHT") (first_size (is_forced atoi (getenv "STRESS_FORCE_4K")))
    some (settings_of getenv size)
