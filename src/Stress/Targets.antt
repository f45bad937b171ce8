-- ===== src/Stress/Targets.antt =====
-- native/wayland_egl_stress.c, lines 698 to 771 and 1970 to 1977: the textures and the framebuffer of
-- the stress client.
use webos_wayland.Base.{
  ℕ, ◌+◌, ◌≡◌, ap, Bool, true, false, not, List, [], ◌∷◌, ◌++◌, if◌then◌else◌, ◌==◌, total,
  total-append, arith,
}
use webos_wayland.Stress.Settings.{Pacing, Workload}
use webos_wayland.Stress.Draws.{is_multipass}
use webos_wayland.Stress.Program.{is_bandwidth}
use webos_wayland.Stress.State.{is_offscreen}

-- What is asked of OpenGL ES; a name is what `glGenTextures` or `glGenFramebuffers` gives.
pub data TextureCall : Type 0 where
  make_texture : ℕ → TextureCall
  delete_texture : ℕ → TextureCall
  make_framebuffer : ℕ → TextureCall
  delete_framebuffer : ℕ → TextureCall

-- The names in `struct app`; 0 is none.
pub record Targets : Type 0 where
  pub offscreen_texture : ℕ
  pub multipass_texture_b : ℕ
  pub source_texture : ℕ
  pub target_texture : ℕ
  pub fbo : ℕ
  pub bandwidth_texture0 : ℕ
  pub bandwidth_texture1 : ℕ
  pub calls : List TextureCall

-- the app after `memset`
abbrev pub no_targets : Targets
no_targets = record {
  offscreen_texture = 0;
  multipass_texture_b = 0;
  source_texture = 0;
  target_texture = 0;
  fbo = 0;
  bandwidth_texture0 = 0;
  bandwidth_texture1 = 0;
  calls = [];
}

-- lines 701 to 720
abbrev pub make_targets : Workload → ℕ → ℕ → Targets → Targets
make_targets w texture second a =
    if is_multipass w
    then record a {
      offscreen_texture = texture;
      multipass_texture_b = second;
      source_texture = texture;
      target_texture = second;
      calls = a.calls ++ (make_texture texture ∷ make_texture second ∷ []);
    }
    else record a { offscreen_texture = texture; calls = a.calls ++ (make_texture texture ∷ []) }

-- `init_offscreen_target`: false for -1. `complete` says that the framebuffer is.
unfoldable pub init_offscreen_target :
    Pacing → Workload → ℕ → ℕ → ℕ → Bool → Targets → Bool × Targets
init_offscreen_target p w texture second fbo complete a =
    if is_offscreen p
    then (let b = make_targets w texture second a in
        (complete, record b { fbo = fbo; calls = b.calls ++ (make_framebuffer fbo ∷ []) }))
    else (true, a)

-- `init_bandwidth_textures`: false for -1.
unfoldable pub init_bandwidth_textures : Workload → Bool → ℕ → ℕ → Targets → Bool × Targets
init_bandwidth_textures w atlas texture second a =
    if not (is_bandwidth w)
    then (true, a)
    else let b = record a {
      bandwidth_texture0 = texture;
      calls = a.calls ++ (make_texture texture ∷ []);
    } in
      if texture == 0
      then (false, b)
      else if atlas
      then (true, record b { bandwidth_texture1 = texture })
      else let c = record b {
        bandwidth_texture1 = second;
        calls = b.calls ++ (make_texture second ∷ []);
      } in
        (not (second == 0), c)

-- `if (name) glDeleteTextures(1, &name);`
abbrev pub delete_named : ℕ → List TextureCall
delete_named n = if n == 0 then [] else delete_texture n ∷ []

-- lines 1971 to 1977
unfoldable pub delete_targets : Targets → List TextureCall
delete_targets a =
    delete_named a.bandwidth_texture0
    ++ (if a.bandwidth_texture1 == a.bandwidth_texture0
        then []
        else delete_named a.bandwidth_texture1)
    ++ (if a.fbo == 0 then [] else delete_framebuffer a.fbo ∷ [])
    ++ delete_named a.offscreen_texture
    ++ delete_named a.multipass_texture_b

-- 1 for a call that made the texture `id`, which is not 0
abbrev pub makes : ℕ → TextureCall → ℕ
makes id c = elim c [ make_texture n ↦ if n == 0 then 0 else if n == id then 1 else 0 | _ ↦ 0 ]

-- 1 for a call that deleted it
abbrev pub deletes : ℕ → TextureCall → ℕ
deletes id c = elim c [ delete_texture n ↦ if n == 0 then 0 else if n == id then 1 else 0 | _ ↦ 0 ]

abbrev is_named : ℕ → ℕ → ℕ
is_named id n = if n == 0 then 0 else if n == id then 1 else 0

offscreen-held :
    (p : Pacing) (w : Workload) (texture second fbo id : ℕ) (complete : Bool)
    → (let a = (init_offscreen_target p w texture second fbo complete no_targets).1 in
        total (makes id) a.calls
        ≡ is_named id a.offscreen_texture + is_named id a.multipass_texture_b)
unfolding init_offscreen_target
offscreen-held p w texture second fbo id complete = ground arith

offscreen-bandwidth :
    (p : Pacing) (w : Workload) (texture second fbo : ℕ) (complete : Bool)
    → (let a = (init_offscreen_target p w texture second fbo complete no_targets).1 in
        (a.bandwidth_texture0 ≡ 0) × (a.bandwidth_texture1 ≡ 0))
unfolding init_offscreen_target
offscreen-bandwidth p w texture second fbo complete = (ground arith, ground arith)

-- The part of `delete_targets` that is about the bandwidth textures.
abbrev bandwidth_held : ℕ → Targets → ℕ
bandwidth_held id a =
    is_named id a.bandwidth_texture0
    + (if a.bandwidth_texture1 == a.bandwidth_texture0 then 0 else is_named id a.bandwidth_texture1)

bandwidth-held :
    (w : Workload) (atlas : Bool) (texture second id : ℕ) (a : Targets)
    → (texture == second) ≡ false
    → a.bandwidth_texture0 ≡ 0
    → a.bandwidth_texture1 ≡ 0
    → (let b = (init_bandwidth_textures w atlas texture second a).1 in
        total (makes id) b.calls ≡ total (makes id) a.calls + bandwidth_held id b)
unfolding init_bandwidth_textures
bandwidth-held w atlas texture second id a d e f = ground (
  arith,
  total-append (makes id) a.calls (make_texture texture ∷ []),
  total-append (makes id) (a.calls ++ (make_texture texture ∷ [])) (make_texture second ∷ []),
)

bandwidth-keeps :
    (w : Workload) (atlas : Bool) (texture second : ℕ) (a : Targets)
    → (let b = (init_bandwidth_textures w atlas texture second a).1 in
        (b.offscreen_texture ≡ a.offscreen_texture)
        × (b.multipass_texture_b ≡ a.multipass_texture_b))
unfolding init_bandwidth_textures
bandwidth-keeps w atlas texture second a = (ground arith, ground arith)

deleted :
    (id : ℕ) (a : Targets)
    → total (deletes id) (delete_targets a)
      ≡ bandwidth_held id a + is_named id a.offscreen_texture + is_named id a.multipass_texture_b
unfolding delete_targets
deleted id a = ground arith

-- Whatever the workload and the pacing are, and whether the textures are laid out as an atlas or not,
-- the end of `main` deletes each texture as often as it was made, where OpenGL ES gives the two
-- bandwidth textures different names.
pub delete_targets-deletes_all :
    (p : Pacing) (w : Workload) (atlas complete : Bool) (texture second fbo first other id : ℕ)
    → (first == other) ≡ false
    → (let a =
          (init_bandwidth_textures w atlas first other
            (init_offscreen_target p w texture second fbo complete no_targets).1).1 in
        total (makes id) a.calls ≡ total (deletes id) (delete_targets a))
delete_targets-deletes_all p w atlas complete texture second fbo first other id d =
    let a = (init_offscreen_target p w texture second fbo complete no_targets).1 in
    let (e, f) = offscreen-bandwidth p w texture second fbo complete in
    omega (
      arith,
      offscreen-held p w texture second fbo id complete,
      bandwidth-held w atlas first other id a d e f,
      ap (is_named id) (bandwidth-keeps w atlas first other a).0,
      ap (is_named id) (bandwidth-keeps w atlas first other a).1,
      deleted id (init_bandwidth_textures w atlas first other a).1,
    )
