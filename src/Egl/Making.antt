-- ===== src/Egl/Making.antt =====
-- What `make_program` of native/wayland_egl.c makes, and what `close_egl` gives up.
use webos_wayland.Base.{ℕ, ◌+◌, ◌≡◌, true, total, arith, is_some}
use webos_wayland.Egl.{Floats, App}
use webos_wayland.Egl.Program.{Built, make_program}
use webos_wayland.Egl.Setup.{close_egl, close_wayland}
use webos_wayland.Egl.Kinds.{Kind, windows, programs, made, given_up, held, is_name}

module _ (float double : Floats) where
  -- the part of `held` that is about programs
  abbrev pub held_program : Kind → ℕ → ℕ → ℕ
  held_program k id p = elim k [ programs ↦ is_name id p | _ ↦ 0 ]

  -- Whether it succeeds or not, `make_program` deletes the shaders that it makes, and makes a program
  -- for good only if it returns that one.
  pub make_program-total :
      (k : Kind) (id : ℕ) (v f p : Built)
      → total (made float double k id) (make_program float v f p).1
        ≡ total (given_up float double k id) (make_program float v f p).1
          + held_program k id (make_program float v f p).0
  unfolding make_program
  make_program-total windows id v f p = ground arith
  make_program-total _ id v f p = ground arith

  pub close_egl-total :
      (k : Kind) (id : ℕ) (a : App float double)
      → is_some a.egl_display ≡ true
      → total (given_up float double k id) (close_egl float double a) ≡ held float double k id a
  unfolding close_egl
  close_egl-total windows id a d = ground arith
  close_egl-total _ id a d = ground arith

  pub close_egl-makes_nothing :
      (k : Kind) (id : ℕ) (a : App float double)
      → total (made float double k id) (close_egl float double a) ≡ 0
  unfolding close_egl
  close_egl-makes_nothing windows id a = ground arith
  close_egl-makes_nothing _ id a = ground arith

  pub close_wayland-total :
      (k : Kind) (id : ℕ) (a : App float double)
      → (total (made float double k id) (close_wayland float double a) ≡ 0)
        × (total (given_up float double k id) (close_wayland float double a) ≡ 0)
  unfolding close_wayland
  close_wayland-total windows id a = (ground arith, ground arith)
  close_wayland-total _ id a = (ground arith, ground arith)
