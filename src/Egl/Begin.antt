-- ===== src/Egl/Begin.antt =====
-- native/wayland_egl.c, `main` up to its loop: which fields it leaves alone, and what therefore holds
-- of the app with which the loop starts.
use webos_wayland.Base.{
  ℕ, ◌≡◌, refl, ◌∙◌, subst, arith, Bool, ◌&&◌, ◌||◌, Option, none, some, List, if-intro, is_some,
  Option-cases, inl, inr, ◌==◌, ltb_ℤ, pos,
}
use webos_wayland.Wayland.{Proxy}
use webos_wayland.Egl.{Floats, App}
use webos_wayland.Egl.Config.{EglHeaders, choose_config}
use webos_wayland.Egl.Program.{make_program}
use webos_wayland.Egl.Frame.{Answers, render, set_surface_opaque}
use webos_wayland.Egl.Setup.{
  SetupAnswers, open_display, open_surface, open_program, init_egl, begin_loop,
}

module _ (float double : Floats) where
  -- The frame callback, the visibility and the samples: what only frames and events write.
  pub record Watched : Type 0 where
    pub waits : Option Proxy
    pub visible : Bool
    pub intervals : Option (List double.F)
    pub submits : Option (List double.F)
    pub swaps : Option (List double.F)
    pub callbacks : Option (List double.F)

  abbrev pub watched : App float double → Watched
  watched a = record {
    waits = a.frame_cb;
    visible = a.render_visible;
    intervals = a.callback_intervals;
    submits = a.input_submit_samples;
    swaps = a.input_swap_samples;
    callbacks = a.input_callback_samples;
  }

  -- `init_egl` and `set_surface_opaque` leave these fields alone.
  open_display-watched :
      (r : SetupAnswers) (a : App float double)
      → watched (open_display float double r a).1 ≡ watched a
  unfolding open_display
  open_display-watched r a =
      if-intro (λ (x : Bool × App float double). watched x.1 ≡ watched a) (is_some r.window) refl
        refl

  open_surface-watched :
      (egl : EglHeaders) (r : SetupAnswers) (a : App float double)
      → watched (open_surface float double egl r a).1 ≡ watched a
  unfolding open_surface
  open_surface-watched egl r a = elim (Option-cases (choose_config egl a.color_mode r.configs)) [
    | inl e ↦ rw (open_surface, e) refl
    | inr (c, e) ↦
        rw (open_surface, e)
          (if-intro (λ (x : Bool × App float double). watched x.1 ≡ watched a) (is_some r.context)
            refl refl)
  ]

  open_program-watched :
      (r : SetupAnswers) (a : App float double)
      → watched (open_program float double r a).1 ≡ watched a
  unfolding open_program
  open_program-watched r a =
      let same = λ (x : Bool × App float double). watched x.1 ≡ watched a in
      if-intro same ((make_program float r.vertex_shader r.fragment_shader r.program).0 == 0) refl (
        if-intro same
          (ltb_ℤ r.attr_pos (pos 0)
            || ltb_ℤ r.uni_angle (pos 0)
            || ltb_ℤ r.uni_offset (pos 0)
            || ltb_ℤ r.uni_color (pos 0))
          refl (if-intro same (r.buffer == 0) refl refl))

  init_egl-watched :
      (egl : EglHeaders) (r : SetupAnswers) (a : App float double)
      → watched (init_egl float double egl r a).1 ≡ watched a
  unfolding init_egl
  init_egl-watched egl r a =
      let same = λ (x : Bool × App float double). watched x.1 ≡ watched a in
      let b = (open_display float double r a).1 in
      let c = (open_surface float double egl r b).1 in
      if-intro same (open_display float double r a).0
        (if-intro same (open_surface float double egl r b).0
          (open_program-watched r c ∙ open_surface-watched egl r b ∙ open_display-watched r a)
          (open_surface-watched egl r b ∙ open_display-watched r a))
        (open_display-watched r a)

  set_surface_opaque-watched :
      (made : Bool) (a : App float double)
      → watched (set_surface_opaque float double made a) ≡ watched a
  unfolding set_surface_opaque
  set_surface_opaque-watched made a =
      if-intro (λ (b : App float double). watched b ≡ watched a)
        (is_some a.compositor
          && is_some a.surface
          && ltb_ℤ (pos 0) a.width
          && ltb_ℤ (pos 0) a.height
          && made)
        refl refl

  -- What holds of the app that the loop starts with, where the start gets so far.
  module _ (P : App float double → Type 0) where
    StartsAs : Option ℕ × App float double → Type 0
    StartsAs x = x.0 ≡ none → P x.1

    exits : (code : ℕ) (a : App float double) → StartsAs (some code, a)
    unfolding StartsAs
    exits code a n = ground arith

    -- What the watched fields decide and a frame keeps holds when the loop begins, if it held before.
    pub begin_loop-keeps :
        (egl : EglHeaders) (setup : SetupAnswers) (r : Answers double)
        (surface shell_surface : Option Proxy) (a first : App float double)
        → ((b c : App float double) → watched c ≡ watched b → P b → P c)
        → ((s : Answers double) (b : App float double) → P b → P (render float double s b))
        → P a
        → begin_loop float double egl setup r surface shell_surface a ≡ (none, first)
        → P first
    unfolding begin_loop StartsAs
    begin_loop-keeps egl setup r surface shell_surface a first decided frame holds opened =
        let b =
          set_surface_opaque float double r.region
            (record a { surface = surface; shell_surface = shell_surface }) in
        let c = (init_egl float double egl setup b).1 in
        let same : watched c ≡ watched a =
          init_egl-watched egl setup b
          ∙ set_surface_opaque-watched r.region
              (record a { surface = surface; shell_surface = shell_surface }) in
        subst StartsAs opened
          (if-intro StartsAs (is_some a.compositor && is_some a.shell)
            (if-intro StartsAs (is_some surface)
              (if-intro StartsAs (is_some shell_surface)
                (if-intro StartsAs (init_egl float double egl setup b).0
                  (λ n. frame r c (decided a c same holds)) (exits 5 c))
                (exits 4 _))
              (exits 4 _))
            (exits 3 a))
          refl
