-- ===== src/Stress/Switches.antt =====
-- How often a frame of the stress client switches its program, and how many draws it makes.
use webos_wayland.Base.{
  ℕ, zero, suc, ◌+◌, ◌-◌, ◌%◌, ◌≡◌, ◌<◌, refl, ap, Bool, true, false, [], ◌∷◌, ◌++◌, if◌then◌else◌,
  leb, ◌==◌, total, total-append, arith,
}
use webos_wayland.Stress.Draws.{
  Load, Command, switch_program, draw_arrays, wants_alt, draw_command, switch_to, draw_all,
  draw_count, pass_all, pass_count, draw_frame, is_multipass, open_pass,
}

-- 1 for a switch of the program
abbrev pub is_switch : Command → ℕ
is_switch c = elim c [ switch_program alt layer pass ↦ 1 | _ ↦ 0 ]

-- 1 for a draw
abbrev pub is_draw : Command → ℕ
is_draw c = elim c [ draw_arrays layer first count ↦ 1 | _ ↦ 0 ]

unfoldable pub least : ℕ → ℕ → ℕ
least m n = if leb m n then m else n

-- The program of a draw is told by the switches so far.
wants_alt-least :
    (a : Load) (draw : ℕ)
    → a.has_alt ≡ true
    → wants_alt a draw ≡ (least draw a.program_switches % 2 == 1)
unfolding wants_alt least
wants_alt-least a draw h = ground arith

-- A switch is made where the programs differ.
switch_to-count :
    (wanted active : Bool) (draw pass : ℕ)
    → total is_switch (switch_to wanted active draw pass)
      ≡ (if wanted then if active then 0 else 1 else if active then 1 else 0)
switch_to-count wanted active draw pass = ground arith

add-zero : (n : ℕ) → n ≡ n + 0
add-zero n = omega arith

add-suc : (m n : ℕ) → m + suc n ≡ m + 1 + n
add-suc m n = omega arith

-- One more draw makes one more switch, until there are enough.
switch-least :
    (s draw : ℕ) (wanted active : Bool)
    → active ≡ (least draw s % 2 == 1)
    → wanted ≡ (least (draw + 1) s % 2 == 1)
    → (if wanted then if active then 0 else 1 else if active then 1 else 0) + least draw s
      ≡ least (draw + 1) s
unfolding least
switch-least s draw wanted active e f = ground arith

-- The switches of a draw and of those after it.
draw_all-suc :
    (a : Load) (pass rounds draw : ℕ) (active : Bool)
    → total is_switch (draw_all a pass (suc rounds) draw active).0
      ≡ total is_switch (switch_to (wants_alt a draw) active draw pass)
        + total is_switch (draw_all a pass rounds (draw + 1) (wants_alt a draw)).0
unfolding draw_all draw_command
draw_all-suc a pass rounds draw active = omega (
  arith,
  total-append is_switch (switch_to (wants_alt a draw) active draw pass)
      (draw_command a draw ∷ (draw_all a pass rounds (draw + 1) (wants_alt a draw)).0),
)

-- From the draw after `draw` on: together with the switches that led there, the number of draws or of
-- switches asked for, whichever is less.
draw_all-switches :
    (a : Load) (pass rounds draw : ℕ) (active : Bool)
    → a.has_alt ≡ true
    → active ≡ (least draw a.program_switches % 2 == 1)
    → total is_switch (draw_all a pass rounds (draw + 1) active).0 + least draw a.program_switches
      ≡ least (draw + rounds) a.program_switches
unfolding draw_all draw_command
draw_all-switches a pass zero draw active h e =
    omega (arith, ap (λ n. least n a.program_switches) (add-zero draw))
draw_all-switches a pass (suc rounds) draw active h e =
    let wanted = wants_alt a (draw + 1) in
    let w = wants_alt-least a (draw + 1) h in
    omega (
      arith,
      draw_all-suc a pass rounds (draw + 1) active,
      draw_all-switches a pass rounds (draw + 1) wanted h w,
      switch-least a.program_switches draw wanted active e w,
      switch_to-count wanted active (draw + 1) pass,
      ap (λ n. least n a.program_switches) (add-suc draw rounds),
    )

zero-add : (n : ℕ) → 0 + n ≡ n
zero-add n = omega arith

suc-sub : (n : ℕ) → suc n - 1 ≡ n
suc-sub n = omega arith

least-zero : (s : ℕ) → least 0 s ≡ 0
unfolding least
least-zero s = ground arith

wants_alt-first :
    (a : Load) → a.has_alt ≡ true → wants_alt a 0 ≡ (least 0 a.program_switches % 2 == 1)
wants_alt-first a h = wants_alt-least a 0 h

wants_alt-zero : (a : Load) → wants_alt a 0 ≡ false
unfolding wants_alt
wants_alt-zero a = ground arith

-- The first draw makes no switch.
draw_all-first :
    (a : Load) (pass rounds : ℕ)
    → a.has_alt ≡ true
    → 0 < rounds
    → total is_switch (draw_all a pass rounds 0 false).0 ≡ least (rounds - 1) a.program_switches
draw_all-first a pass zero h some_draw = elim some_draw [ ]
draw_all-first a pass (suc rounds) h some_draw = omega (
  arith,
  draw_all-suc a pass rounds 0 false,
  draw_all-switches a pass rounds 0 (wants_alt a 0) h (wants_alt-first a h),
  least-zero a.program_switches,
  switch_to-count (wants_alt a 0) false 0 pass,
  ap {B = ℕ} (λ (w : Bool). if w then if false then 0 else 1 else if false then 1 else 0)
      (wants_alt-zero a),
  ap (λ n. least n a.program_switches) (zero-add rounds),
  ap (λ n. least n a.program_switches) (suc-sub rounds),
)

draw_frame-single :
    (a : Load) (source target : ℕ)
    → is_multipass a.workload ≡ false
    → (draw_frame a source target).0 ≡ (draw_all a 0 (draw_count a) 0 false).0 ++ []
unfolding draw_frame pass_all pass_count
draw_frame-single a source target single =
    rw (draw_frame, single) (rw (pass_all, open_pass, single) refl)

-- In a frame of one pass the program is switched as often as was asked for, as far as there are draws
-- after the first one.
pub draw_frame-switches :
    (a : Load) (source target : ℕ)
    → is_multipass a.workload ≡ false
    → a.has_alt ≡ true
    → 0 < draw_count a
    → total is_switch (draw_frame a source target).0 ≡ least (draw_count a - 1) a.program_switches
draw_frame-switches a source target single h some_draw =
    let drawn = (draw_all a 0 (draw_count a) 0 false).0 in
    omega (
      arith,
      ap (total is_switch) (draw_frame-single a source target single),
      draw_all-first a 0 (draw_count a) h some_draw,
      total-append is_switch drawn [],
    )
