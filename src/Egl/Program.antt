-- ===== src/Egl/Program.antt =====
-- native/wayland_egl.c, lines 105 to 173: the shaders and the program made of them.
use webos_wayland.Base.{ℕ, Bool, ◌||◌, List, [], ◌∷◌, ◌++◌, if◌then◌else◌, ◌==◌}
use webos_wayland.Egl.{Floats, Effect, create_shader, delete_shader, create_program, delete_program}

-- The name that OpenGL gives an object, which is 0 if it makes none, and whether it could be compiled
-- or linked.
pub record Built : Type 0 where
  pub name : ℕ
  pub works : Bool

module _ (float : Floats) where
  -- `compile_shader`: the shader, or 0, and what it asks for
  unfoldable pub compile_shader : Built → ℕ × List (Effect float)
  compile_shader b =
      if b.works
      then (b.name, create_shader b.name ∷ [])
      else (0, create_shader b.name ∷ delete_shader b.name ∷ [])

  -- `if (v) glDeleteShader(v);`
  abbrev pub delete_if_made : ℕ → List (Effect float)
  delete_if_made v = if v == 0 then [] else delete_shader v ∷ []

  -- `make_program` once both shaders are there
  unfoldable pub link_program : ℕ → ℕ → Built → ℕ × List (Effect float)
  link_program v f p =
      let es = create_program p.name ∷ delete_shader v ∷ delete_shader f ∷ [] in
      if p.works then (p.name, es) else (0, es ++ (delete_program p.name ∷ []))

  unfoldable pub make_program : Built → Built → Built → ℕ × List (Effect float)
  unfolding compile_shader link_program
  make_program vertex fragment program =
      let (v, vs) = compile_shader vertex in
      let (f, fs) = compile_shader fragment in
      if v == 0 || (f == 0)
      then (0, vs ++ fs ++ delete_if_made v ++ delete_if_made f)
      else let (p, ps) = link_program v f program in (p, vs ++ fs ++ ps)
