-- ===== src/Stress/Program.antt =====
-- native/wayland_egl_stress.c, lines 397 to 466: the programs of the stress client.
use webos_wayland.Base.{
  ℕ, ◌+◌, ◌≡◌, refl, ℤ, pos, Bool, true, false, not, ◌&&◌, ◌||◌, List, [], ◌++◌, if◌then◌else◌,
  ◌==◌, ltb_ℤ, total, total-append, arith, if-intro, if-cases,
}
use webos_wayland.Egl.{Floats, Effect}
use webos_wayland.Egl.Program.{Built, make_program as link_shaders}
use webos_wayland.Egl.Kinds.{Kind, programs, made, given_up}
use webos_wayland.Egl.Making.{make_program-total, held_program}
use webos_wayland.Stress.Settings.{Workload, bandwidth}
use webos_wayland.Stress.Draws.{is_multipass}

-- What OpenGL ES answers to `make_program_once`, and whether the text of the shader was allocated.
pub record Attempt : Type 0 where
  pub allocated : Bool
  pub vertex : Built
  pub fragment : Built
  pub program : Built

-- What `resolve_program_state` finds, as far as `program_state_valid` looks at it.
pub record ProgramState : Type 0 where
  pub attr_pos : ℤ
  pub uni_texture0 : ℤ
  pub uni_texture1 : ℤ

abbrev pub is_bandwidth : Workload → Bool
is_bandwidth w = elim w [ bandwidth ↦ true | _ ↦ false ]

-- `program_state_valid`
unfoldable pub program_state_valid : Workload → ProgramState → Bool
unfolding is_multipass
program_state_valid w s =
    if ltb_ℤ s.attr_pos (pos 0)
    then false
    else if is_bandwidth w && (ltb_ℤ s.uni_texture0 (pos 0) || ltb_ℤ s.uni_texture1 (pos 0))
    then false
    else not (is_multipass w && ltb_ℤ s.uni_texture0 (pos 0))

module _ (float double : Floats) where
  -- lines 369 to 428, whose calls after the text are those of `make_program` in native/wayland_egl.c
  unfoldable pub make_program_once : Attempt → ℕ × List (Effect float)
  make_program_once t =
      if t.allocated then link_shaders float t.vertex t.fragment t.program else (0, [])

  -- `make_program`: the program, `selected_highp`, and what is asked for
  unfoldable pub make_program : Bool → Attempt → Attempt → ℕ × Bool × List (Effect float)
  unfolding make_program_once
  make_program requested_highp high medium =
      let (p, es) = make_program_once high in
      let (q, fs) = make_program_once medium in
      if requested_highp
      then if p == 0 then (q, false, es ++ fs) else (p, true, es)
      else (q, false, fs)

  -- Program 0 is none.
  held_program-zero : (k : Kind) (id p : ℕ) → (p == 0) ≡ true → held_program float double k id p ≡ 0
  held_program-zero programs id p h = ground arith
  held_program-zero _ id p h = refl

  once-total :
      (k : Kind) (id : ℕ) (t : Attempt)
      → total (made float double k id) (make_program_once t).1
        ≡ total (given_up float double k id) (make_program_once t).1
          + held_program float double k id (make_program_once t).0
  unfolding make_program_once
  once-total k id t =
      if-intro
        (λ (x : ℕ × List (Effect float)).
          total (made float double k id) x.1
          ≡ total (given_up float double k id) x.1 + held_program float double k id x.0)
        t.allocated (make_program-total float double k id t.vertex t.fragment t.program)
        (omega (arith, held_program-zero k id 0 refl))

  -- With or without the fallback to mediump, every shader is deleted again, and no program is left but
  -- the one that is returned.
  pub make_program-leaves :
      (k : Kind) (id : ℕ) (requested_highp : Bool) (high medium : Attempt)
      → total (made float double k id) (make_program requested_highp high medium).2
        ≡ total (given_up float double k id) (make_program requested_highp high medium).2
          + held_program float double k id (make_program requested_highp high medium).0
  unfolding make_program
  make_program-leaves k id requested_highp high medium =
      let (p, es) = make_program_once high in
      let (q, fs) = make_program_once medium in
      let P = λ (x : ℕ × Bool × List (Effect float)).
        total (made float double k id) x.2
        ≡ total (given_up float double k id) x.2 + held_program float double k id x.0 in
      if-intro P requested_highp
        (if-cases P (p == 0)
          (λ e. omega (
            arith,
            once-total k id high,
            once-total k id medium,
            held_program-zero k id p e,
            total-append (made float double k id) es fs,
            total-append (given_up float double k id) es fs,
          ))
          (λ e. once-total k id high))
        (once-total k id medium)
