-- ===== src/Stress/Surface.antt =====
-- The configuration of the stress client can make the surface that it renders to.
use webos_wayland.Base.{
  ◌≡◌, ℕ, Bool, true, ◌&&◌, not, some, List, if◌then◌else◌, String, arith, ◌==◌,
}
use webos_wayland.Egl.Config.{EglHeaders, Config, is_suitable, has_bits}
use webos_wayland.Egl.Best.{choose_config-suitable}
use webos_wayland.Stress.Setup.{choose_config}

first-true : (t u v w : Bool) → (t && u && v && w) ≡ true → (t ≡ true) × (u ≡ true) × (v ≡ true)
first-true t u v w h = (ground arith, ground arith, ground arith)

-- The configuration that is chosen can make a pbuffer under that pacing and a window under the others,
-- can be drawn to with OpenGL ES 2, and is not a slow one.
pub choose_config-surface :
    (egl : EglHeaders) (pbuffer_bit : ℕ) (is_pbuffer : Bool) (mode : String) (cs : List Config)
    {best : Config}
    → choose_config egl pbuffer_bit is_pbuffer mode (some cs) ≡ some best
    → (has_bits best.surface (if is_pbuffer then pbuffer_bit else egl.window_bit) ≡ true)
      × (has_bits best.renderable egl.opengl_es2_bit ≡ true)
      × (not (best.caveat == egl.slow_config) ≡ true)
unfolding choose_config is_suitable
choose_config-surface egl pbuffer_bit is_pbuffer mode cs {best} chosen =
    first-true _ _ _ _ (choose_config-suitable _ mode cs chosen)
