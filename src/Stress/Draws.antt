-- ===== src/Stress/Draws.antt =====
-- native/wayland_egl_stress.c, lines 691 to 696 and 1397 to 1504: the draws of a frame.
use webos_wayland.Base.{
  ℕ, zero, suc, ◌+◌, ◌*◌, ◌%◌, Bool, true, false, not, ◌&&◌, List, [], ◌∷◌, ◌++◌, if◌then◌else◌,
  ltb, leb, ◌==◌,
}
use webos_wayland.Stress.Settings.{
  Workload, overdraw, multipass_copy, multipass_alu, multipass_effect, blur, command_pressure,
  sprite_load,
}

-- `is_multipass_workload`
unfoldable pub is_multipass : Workload → Bool
is_multipass multipass_copy = true
is_multipass multipass_alu = true
is_multipass multipass_effect = true
is_multipass blur = true
is_multipass _ = false

-- What the loops read of `struct app`. `has_alt` says that the second program is there.
pub record Load : Type 0 where
  pub workload : Workload
  pub passes : ℕ
  pub layers : ℕ
  pub draws : ℕ
  pub sprites : ℕ
  pub batch : Bool
  pub program_switches : ℕ
  pub has_alt : Bool
  pub vertex_count : ℕ

-- What the loops ask of OpenGL ES.
pub data Command : Type 0 where
  -- the target that a pass draws to, the texture that it reads, and the parity of the pass
  begin_pass : ℕ → ℕ → ℕ → Command
  -- the second program or the first, with its layer and the parity of the pass
  switch_program : Bool → ℕ → ℕ → Command
  -- layer, first vertex and number of vertices
  draw_arrays : ℕ → ℕ → ℕ → Command

-- line 1401
unfoldable pub pass_count : Load → ℕ
unfolding is_multipass
pass_count a = if is_multipass a.workload then a.passes else 1

-- lines 1402 to 1405
unfoldable pub draw_count : Load → ℕ
draw_count a = elim a.workload [
  | overdraw ↦ a.layers
  | command_pressure ↦ if a.batch then 1 else a.draws
  | sprite_load ↦ if a.batch then 1 else a.sprites
  | _ ↦ 1
]

-- lines 1468 to 1476: whether a draw wants the second program
unfoldable pub wants_alt : Load → ℕ → Bool
wants_alt a draw =
    if ltb 0 a.program_switches && a.has_alt
    then if ltb 0 draw && leb draw a.program_switches
      then draw % 2 == 1
      else ltb a.program_switches draw && (a.program_switches % 2 == 1)
    else false

abbrev pub is_sprites : Workload → Bool
is_sprites w = elim w [ sprite_load ↦ true | _ ↦ false ]

-- lines 1489 to 1493
unfoldable pub draw_command : Load → ℕ → Command
draw_command a draw =
    draw_arrays draw (if is_sprites a.workload && not a.batch then draw * 6 else 0) (
      if is_sprites a.workload && a.batch
      then a.vertex_count
      else if is_sprites a.workload
      then 6
      else a.vertex_count)

-- lines 1477 to 1488
abbrev pub switch_to : Bool → Bool → ℕ → ℕ → List Command
switch_to wanted active draw pass =
    if wanted
    then if active then [] else switch_program true draw (pass % 2) ∷ []
    else if active
    then switch_program false draw (pass % 2) ∷ []
    else []

-- lines 1467 to 1494: `rounds` draws from the number `draw` on, with the second program in use where
-- `active` is true; the commands and the program that is used last
unfoldable pub draw_all : Load → ℕ → ℕ → ℕ → Bool → List Command × Bool
unfolding wants_alt draw_command
draw_all a pass zero draw active = ([], active)
draw_all a pass (suc rounds) draw active =
    let wanted = wants_alt a draw in
    let (rest, last) = draw_all a pass rounds (draw + 1) wanted in
    (switch_to wanted active draw pass ++ (draw_command a draw ∷ rest), last)

-- lines 1458 to 1466
abbrev pub open_pass : Load → ℕ → ℕ → ℕ → List Command
open_pass a pass source target =
    if is_multipass a.workload then begin_pass target source (pass % 2) ∷ [] else []

-- lines 1457 to 1500, with `source` and `target` as the textures: the commands, and the textures
-- after them
unfoldable pub pass_all : Load → ℕ → ℕ → ℕ → ℕ → Bool → List Command × ℕ × ℕ
unfolding draw_all draw_count is_multipass
pass_all a zero pass source target active = ([], source, target)
pass_all a (suc rounds) pass source target active =
    let (drawn, last) = draw_all a pass (draw_count a) 0 active in
    let rest =
      if is_multipass a.workload
      then pass_all a rounds (pass + 1) target source last
      else pass_all a rounds (pass + 1) source target last in
    (open_pass a pass source target ++ (drawn ++ rest.0), rest.1, rest.2)

-- lines 1454 to 1504
unfoldable pub draw_frame : Load → ℕ → ℕ → List Command × ℕ × ℕ
unfolding pass_all pass_count
draw_frame a source target = pass_all a (pass_count a) 0 source target false
