-- ===== src/Egl/Config.antt =====
-- native/wayland_egl.c, `choose_config` (lines 175 to 257).
use webos_wayland.Base.{
  ℕ, ◌+◌, ◌*◌, ℤ, pos, negsuc, ◌+ℤ◌, ◌-ℤ◌, ltb_ℤ, Bool, not, ◌&&◌, Option, none, some, List, [],
  ◌∷◌, if◌then◌else◌, leb, ◌==◌, String, str_eq, bit_and,
}

-- EGL_WINDOW_BIT, EGL_OPENGL_ES2_BIT and EGL_SLOW_CONFIG
pub record EglHeaders : Type 0 where
  pub window_bit : ℕ
  pub opengl_es2_bit : ℕ
  pub slow_config : ℕ

-- A configuration of the display, with what `eglGetConfigAttrib` left in the variables of the loop.
-- The sizes are numbers of bits, so they are not negative.
pub record Config : Type 0 where
  pub handle : ℕ
  pub surface : ℕ
  pub renderable : ℕ
  pub red : ℕ
  pub green : ℕ
  pub blue : ℕ
  pub alpha : ℕ
  pub depth : ℕ
  pub stencil : ℕ
  pub caveat : ℕ

abbrev pub has_bits : ℕ → ℕ → Bool
has_bits value mask = not (bit_and value mask == 0)

-- at least so many bits of each colour
abbrev pub has_colours : ℕ → ℕ → ℕ → Config → Bool
has_colours red green blue c = leb red c.red && leb green c.green && leb blue c.blue

-- the tests on `color_mode`
unfoldable pub suits_mode : String → Config → Bool
suits_mode mode c =
    if str_eq mode "565"
    then has_colours 5 6 5 c && (c.alpha == 0)
    else if str_eq mode "rgb888"
    then has_colours 8 8 8 c && (c.alpha == 0)
    else if str_eq mode "8888"
    then has_colours 8 8 8 c && leb 8 c.alpha
    else has_colours 8 8 8 c

-- The loop's body does not `continue`.
unfoldable pub is_suitable : EglHeaders → String → Config → Bool
is_suitable egl mode c =
    has_bits c.surface egl.window_bit
    && has_bits c.renderable egl.opengl_es2_bit
    && not (c.caveat == egl.slow_config)
    && suits_mode mode c

unfoldable pub score : String → Config → ℤ
score mode c =
    let bonus =
      (if str_eq mode "auto" && (c.alpha == 0) then 10000 else 0)
      + (if str_eq mode "565" && (c.red == 5) && (c.green == 6) && (c.blue == 5)
          then 10000
          else 0) in
    pos bonus
    -ℤ pos (c.alpha * 100 + c.depth * 10 + c.stencil * 10)
    -ℤ ((pos c.red -ℤ pos 8) +ℤ (pos c.green -ℤ pos 8) +ℤ (pos c.blue -ℤ pos 8))

-- One round: `best_score` and `best`.
unfoldable pub better : EglHeaders → String → ℤ × Option Config → Config → ℤ × Option Config
better egl mode (best_score, best) c =
    if is_suitable egl mode c && ltb_ℤ best_score (score mode c)
    then (score mode c, some c)
    else (best_score, best)

unfoldable pub best_of : EglHeaders → String → ℤ × Option Config → List Config → ℤ × Option Config
best_of egl mode state [] = state
best_of egl mode state (c ∷ cs) = best_of egl mode (better egl mode state c) cs

-- -1000000
abbrev pub no_score : ℤ
no_score = negsuc 999999

-- `choose_config`: `configs` is what the two calls of `eglGetConfigs` and the allocation give, and
-- `none` as the result is -1. The handles of EGL are not null.
unfoldable pub choose_config : EglHeaders → String → Option (List Config) → Option Config
unfolding best_of
choose_config egl mode configs = elim configs [
  | none ↦ none
  | some cs ↦ (best_of egl mode (no_score, none) cs).1
]
