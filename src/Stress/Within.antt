-- ===== src/Stress/Within.antt =====
-- The settings of the stress client are in their ranges and lists.
use webos_wayland.Base.{
  ℕ, ◌≤◌, ◌≡◌, refl, subst, ℤ, pos, ◌≤ℤ◌, Bool, true, false, Option, none, some, List, String,
  some-injective, arith, Option-cases, inl, inr, if-cases,
}
use webos_wayland.Stress.Setup.{Parsed, parse_positive_env, parse_resolution}
use webos_wayland.Stress.Range.{InRange, parse_positive_env-range, parse_resolution-InRange}
use webos_wayland.Stress.Settings.{
  Settings, Workload, settings_of, configure_benchmark, mode_of, is_one_of, patterns, filters,
  formats, outputs, color_modes, priorities, first_size, is_forced, default_passes, workload_of,
  blur,
}

abbrev pub IsBetween : ℕ → ℕ → ℤ → Type 0
IsBetween lo hi x = (pos lo ≤ℤ x) × (x ≤ℤ pos hi)

abbrev pub IsKnown : List String → String → Type 0
IsKnown known name = is_one_of known name ≡ true

-- Every number in its range, every mode in its list.
pub record IsWithin (s : Settings) : Type 0 where
  pub iterations : IsBetween 1 64 s.iterations
  pub layers : IsBetween 1 64 s.layers
  pub draws : IsBetween 1 2000 s.draws
  pub sprites : IsBetween 1 2000 s.sprites
  pub passes : IsBetween 1 16 s.passes
  pub program_switches : IsBetween 0 2000 s.program_switches
  pub texture_samples : IsBetween 1 64 s.texture_samples
  pub blur_taps : IsBetween 3 9 s.blur_taps
  pub batch : IsBetween 0 1 s.batch
  pub offscreen_batch : IsBetween 1 4096 s.offscreen_batch
  pub timer_slots : IsBetween 1 128 s.timer_slots
  pub texture_size : IsBetween 64 8192 s.texture_size
  pub texture_pattern : IsKnown patterns s.texture_pattern
  pub texture_filter : IsKnown filters s.texture_filter
  pub texture_format : IsKnown formats s.texture_format
  pub output_mode : IsKnown outputs s.output_mode
  pub color_mode : IsKnown color_modes s.color_mode
  pub priority_mode : IsKnown priorities s.priority_mode
  pub size : InRange s.size

mode_of-IsKnown :
    (known : List String) (fallback : String) (value : Option String)
    → IsKnown known fallback
    → IsKnown known (mode_of known fallback value)
unfolding mode_of
mode_of-IsKnown known fallback none h = h
mode_of-IsKnown known fallback (some name) h =
    if-cases (IsKnown known) (is_one_of known name) (λ e. e) (λ _. h)

first_size-InRange : (force : Bool) → InRange (first_size force)
first_size-InRange true = record {
  wide = omega arith;
  narrow = omega arith;
  high = omega arith;
  low = omega arith;
}
first_size-InRange false = record {
  wide = omega arith;
  narrow = omega arith;
  high = omega arith;
  low = omega arith;
}

default_passes-IsBetween : (w : Workload) → IsBetween 1 16 (default_passes w)
default_passes-IsBetween blur = (omega arith, omega arith)
default_passes-IsBetween _ = (omega arith, omega arith)

module _ (strtol : String → Parsed) (atoi : String → ℤ) where
  number-IsBetween :
      (value : Option String) (fallback lo hi : ℕ)
      → lo ≤ fallback
      → fallback ≤ hi
      → IsBetween lo hi (parse_positive_env strtol value (pos fallback) (pos lo) (pos hi))
  number-IsBetween value fallback lo hi l h =
      parse_positive_env-range strtol value (pos fallback) (pos lo) (pos hi) (omega arith)
        (omega arith)

  settings_of-IsWithin :
      (getenv : String → Option String) (size : ℤ × ℤ)
      → InRange size
      → IsWithin (settings_of strtol atoi getenv size)
  unfolding settings_of
  settings_of-IsWithin getenv size h = record {
    iterations = number-IsBetween (getenv "STRESS_ITERS") 1 1 64 (omega arith) (omega arith);
    layers = number-IsBetween (getenv "STRESS_LAYERS") 1 1 64 (omega arith) (omega arith);
    draws = number-IsBetween (getenv "STRESS_DRAWS") 1 1 2000 (omega arith) (omega arith);
    sprites = number-IsBetween (getenv "STRESS_SPRITES") 100 1 2000 (omega arith) (omega arith);
    passes =
        (let w = workload_of (getenv "STRESS_WORKLOAD") in
          let (l, g) = default_passes-IsBetween w in
          parse_positive_env-range strtol (getenv "STRESS_PASSES") (default_passes w) (pos 1)
            (pos 16) l g);
    program_switches =
        number-IsBetween (getenv "STRESS_PROGRAM_SWITCHES") 0 0 2000 (omega arith) (omega arith);
    texture_samples =
        number-IsBetween (getenv "STRESS_TEXTURE_SAMPLES") 1 1 64 (omega arith) (omega arith);
    blur_taps = number-IsBetween (getenv "STRESS_BLUR_TAPS") 5 3 9 (omega arith) (omega arith);
    batch = number-IsBetween (getenv "STRESS_BATCH") 0 0 1 (omega arith) (omega arith);
    offscreen_batch =
        number-IsBetween (getenv "STRESS_OFFSCREEN_BATCH") 64 1 4096 (omega arith) (omega arith);
    timer_slots =
        number-IsBetween (getenv "STRESS_TIMER_SLOTS") 8 1 128 (omega arith) (omega arith);
    texture_size =
        number-IsBetween (getenv "STRESS_TEXTURE_SIZE") 256 64 8192 (omega arith) (omega arith);
    texture_pattern = mode_of-IsKnown patterns "coherent" (getenv "STRESS_TEXTURE_PATTERN") refl;
    texture_filter = mode_of-IsKnown filters "nearest" (getenv "STRESS_FILTER") refl;
    texture_format = mode_of-IsKnown formats "rgba8888" (getenv "STRESS_TEXTURE_FORMAT") refl;
    output_mode = mode_of-IsKnown outputs "human" (getenv "STRESS_OUTPUT") refl;
    color_mode = mode_of-IsKnown color_modes "auto" (getenv "EGL_COLOR_MODE") refl;
    priority_mode = mode_of-IsKnown priorities "default" (getenv "EGL_CONTEXT_PRIORITY") refl;
    size = h;
  }

  -- Whatever the environment is and whatever `strtol` and `atoi` make of it, the settings that
  -- `configure_benchmark` does not refuse have every number in its range, every mode in its list, and
  -- a size within 16 and 8192.
  pub configure_benchmark-IsWithin :
      (getenv : String → Option String) (s : Settings)
      → configure_benchmark strtol atoi getenv ≡ some s
      → IsWithin s
  unfolding configure_benchmark
  configure_benchmark-IsWithin getenv s h =
      let start = first_size (is_forced atoi (getenv "STRESS_FORCE_4K")) in
      elim (Option-cases (
        parse_resolution strtol (getenv "STRESS_RESOLUTION") (getenv "STRESS_WIDTH")
          (getenv "STRESS_HEIGHT") start)) [
            | inl e ↦ let q = rw (configure_benchmark, e) at h in cc
            | inr (size, e) ↦
                subst IsWithin (some-injective _ _ (rw (configure_benchmark, e) at h)) (
                  settings_of-IsWithin getenv size (
                    parse_resolution-InRange strtol (getenv "STRESS_RESOLUTION")
                      (getenv "STRESS_WIDTH") (getenv "STRESS_HEIGHT") start (first_size-InRange _)
                      e))
          ]
