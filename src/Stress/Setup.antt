-- ===== src/Stress/Setup.antt =====
-- native/wayland_egl_stress.c, `choose_config` (lines 479 to 566), `parse_positive_env` and
-- `parse_resolution` (lines 578 to 638).
use webos_wayland.Base.{
  ℕ, ℤ, pos, ltb_ℤ, Bool, ◌||◌, Option, none, some, List, if◌then◌else◌, String, str_eq,
}
use webos_wayland.Egl.Config.{EglHeaders, Config, choose_config as choose_window_config}

-- `choose_config` has the text of that of native/wayland_egl.c but for the surface bit, which is
-- EGL_PBUFFER_BIT under STRESS_PACING_PBUFFER.
unfoldable pub choose_config : EglHeaders → ℕ → Bool → String → Option (List Config) → Option Config
choose_config egl pbuffer_bit is_pbuffer mode configs =
    choose_window_config
      (record egl { window_bit = if is_pbuffer then pbuffer_bit else egl.window_bit }) mode configs

-- What `strtol` gives: the number, whether it read nothing, and whether it left something unread.
pub record Parsed : Type 0 where
  pub value : ℤ
  pub is_empty : Bool
  pub has_rest : Bool

-- `parse_positive_env` on the value of the variable, if it is set.
unfoldable pub parse_positive_env : (String → Parsed) → Option String → ℤ → ℤ → ℤ → ℤ
parse_positive_env strtol value fallback minimum maximum = elim value [
  | none ↦ fallback
  | some text ↦
      if str_eq text ""
      then fallback
      else let parsed = strtol text in
        if parsed.is_empty
          || parsed.has_rest
          || ltb_ℤ parsed.value minimum
          || ltb_ℤ maximum parsed.value
        then fallback
        else parsed.value
]

-- the sizes of STRESS_RESOLUTION
unfoldable pub preset_size : String → Option (ℤ × ℤ)
preset_size preset =
    if str_eq preset "720p"
    then some (pos 1280, pos 720)
    else if str_eq preset "1080p"
    then some (pos 1920, pos 1080)
    else if str_eq preset "1440p"
    then some (pos 2560, pos 1440)
    else if str_eq preset "4k" || str_eq preset "2160p"
    then some (pos 3840, pos 2160)
    else none

-- the size that STRESS_WIDTH and STRESS_HEIGHT make of another
abbrev pub resize : (String → Parsed) → Option String → Option String → ℤ × ℤ → ℤ × ℤ
resize strtol width height (w, h) = (
  parse_positive_env strtol width w (pos 16) (pos 8192),
  parse_positive_env strtol height h (pos 16) (pos 8192),
)

-- `parse_resolution` on STRESS_RESOLUTION, STRESS_WIDTH, STRESS_HEIGHT and the size of the app; `none`
-- for -1. A variable that is not set leaves its side as it is, as `parse_positive_env` does.
unfoldable pub parse_resolution :
    (String → Parsed) → Option String → Option String → Option String → ℤ × ℤ → Option (ℤ × ℤ)
parse_resolution strtol preset width height size = elim preset [
  | none ↦ some (resize strtol width height size)
  | some name ↦ elim (preset_size name) [
    | none ↦ none
    | some other ↦ some (resize strtol width height other)
  ]
]
