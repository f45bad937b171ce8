-- ===== src/Egl/Opening.antt =====
-- The stages of `init_egl` in native/wayland_egl.c keep the accounts of `Egl.Kinds` in order.
use webos_wayland.Base.{
  ℕ, ◌≡◌, refl, ℤ, pos, Bool, ◌||◌, Option, none, some, [], ◌∷◌, ◌==◌, ltb_ℤ, arith, if-intro,
  is_some, Option-cases, inl, inr,
}
use webos_wayland.Wayland.{Proxy}
use webos_wayland.Egl.{
  Floats, App, create_window, create_context, create_surface, make_buffer, viewport,
}
use webos_wayland.Egl.Config.{EglHeaders, choose_config}
use webos_wayland.Egl.Program.{make_program}
use webos_wayland.Egl.Setup.{
  SetupAnswers, on_some, asks, open_display, open_surface, open_program, init_egl,
}
use webos_wayland.Egl.Kinds.{Kind, windows, programs, IsBalanced, IsEven, step-IsBalanced}
use webos_wayland.Egl.Making.{make_program-total}

module _ (float double : Floats) where
  window-IsEven :
      (k : Kind) (id : ℕ) (w : Option Proxy) (a : App float double)
      → a.egl_window ≡ none
      → IsEven float double k id a (record a { egl_window = w }) (on_some create_window w)
  window-IsEven windows id w a e = ground arith
  window-IsEven _ id w a e = ground arith

  context-IsEven :
      (k : Kind) (id : ℕ) (c : Option ℕ) (a : App float double)
      → a.egl_context ≡ none
      → IsEven float double k id a (record a { egl_context = c }) (on_some create_context c)
  context-IsEven windows id c a e = ground arith
  context-IsEven _ id c a e = ground arith

  surface-IsEven :
      (k : Kind) (id : ℕ) (s : Option ℕ) (a : App float double)
      → a.egl_surface ≡ none
      → IsEven float double k id a (record a { egl_surface = s }) (on_some create_surface s)
  surface-IsEven windows id s a e = ground arith
  surface-IsEven _ id s a e = ground arith

  program-IsEven :
      (k : Kind) (id : ℕ) (r : SetupAnswers) (a : App float double)
      → a.program ≡ 0
      → IsEven float double k id a
          (record a {
            program = (make_program float r.vertex_shader r.fragment_shader r.program).0;
          })
          (make_program float r.vertex_shader r.fragment_shader r.program).1
  program-IsEven windows id r a e = omega (
    arith,
    make_program-total float double windows id r.vertex_shader r.fragment_shader r.program,
  )
  program-IsEven programs id r a e = ground (
    arith,
    make_program-total float double programs id r.vertex_shader r.fragment_shader r.program,
  )
  program-IsEven k id r a e =
      omega
        (arith, make_program-total float double k id r.vertex_shader r.fragment_shader r.program)

  buffer-IsEven :
      (k : Kind) (id : ℕ) (n : ℕ) (a : App float double)
      → a.vbo ≡ 0
      → IsEven float double k id a (record a { vbo = n }) (make_buffer n ∷ [])
  buffer-IsEven windows id n a e = ground arith
  buffer-IsEven _ id n a e = ground arith

  module _ (k : Kind) (id : ℕ) where
    -- The accounts are in order, and there is no program and no buffer yet.
    pub record IsUnlinked (a : App float double) : Type 0 where
      pub balanced : IsBalanced float double k id a
      pub program : a.program ≡ 0
      pub vbo : a.vbo ≡ 0

    -- There is no context and no surface yet either.
    pub record IsUndrawn (a : App float double) : Type 0 where
      pub unlinked : IsUnlinked a
      pub context : a.egl_context ≡ none
      pub surface : a.egl_surface ≡ none

    viewport-IsBalanced :
        (x y : ℤ) (a : App float double)
        → IsBalanced float double k id a
        → IsBalanced float double k id (asks float double (viewport x y ∷ []) a)
    viewport-IsBalanced x y a p =
        step-IsBalanced float double k id a (asks float double (viewport x y ∷ []) a)
          (viewport x y ∷ []) refl (omega arith) p

    pub open_display-IsUndrawn :
        (r : SetupAnswers) (a : App float double)
        → a.egl_window ≡ none
        → IsUndrawn a
        → IsUndrawn (open_display float double r a).1
    unfolding open_display
    open_display-IsUndrawn r a e u =
        let b =
          asks float double (on_some create_window r.window) (record a { egl_window = r.window }) in
        let q =
          step-IsBalanced float double k id a b (on_some create_window r.window) refl
            (window-IsEven k id r.window a e) u.unlinked.balanced in
        if-intro (λ (x : Bool × App float double). IsUndrawn x.1) (is_some r.window)
          (record {
            unlinked = record { balanced = q; program = u.unlinked.program; vbo = u.unlinked.vbo };
            context = u.context;
            surface = u.surface;
          })
          (record {
            unlinked = record { balanced = q; program = u.unlinked.program; vbo = u.unlinked.vbo };
            context = u.context;
            surface = u.surface;
          })

    open_surface-IsUnlinked :
        (egl : EglHeaders) (r : SetupAnswers) (a : App float double)
        → IsUndrawn a
        → IsUnlinked (open_surface float double egl r a).1
    unfolding open_surface
    open_surface-IsUnlinked egl r a u =
        elim (Option-cases (choose_config egl a.color_mode r.configs)) [
          | inl e ↦ rw (open_surface, e) u.unlinked
          | inr (c, e) ↦
              let b =
                asks float double (on_some create_context r.context)
                  (record a { egl_config = some c; egl_context = r.context }) in
              let d =
                asks float double (on_some create_surface r.surface)
                  (record b { egl_surface = r.surface }) in
              let q =
                step-IsBalanced float double k id a b (on_some create_context r.context) refl
                  (context-IsEven k id r.context a u.context) u.unlinked.balanced in
              rw (open_surface, e)
                (if-intro (λ (x : Bool × App float double). IsUnlinked x.1) (is_some r.context)
                  (record {
                    balanced =
                        step-IsBalanced float double k id b d (on_some create_surface r.surface)
                          refl (surface-IsEven k id r.surface b u.surface) q;
                    program = u.unlinked.program;
                    vbo = u.unlinked.vbo;
                  })
                  (record { balanced = q; program = u.unlinked.program; vbo = u.unlinked.vbo }))
        ]

    open_program-IsBalanced :
        (r : SetupAnswers) (a : App float double)
        → IsUnlinked a
        → IsBalanced float double k id (open_program float double r a).1
    unfolding open_program
    open_program-IsBalanced r a u =
        let made_program = make_program float r.vertex_shader r.fragment_shader r.program in
        let b = asks float double made_program.1 (record a { program = made_program.0 }) in
        let d = asks float double (make_buffer r.buffer ∷ []) (record b { vbo = r.buffer }) in
        let q =
          step-IsBalanced float double k id a b made_program.1 refl
            (program-IsEven k id r a u.program) u.balanced in
        let s =
          step-IsBalanced float double k id b d (make_buffer r.buffer ∷ []) refl
            (buffer-IsEven k id r.buffer b u.vbo) q in
        let P = λ (x : Bool × App float double). IsBalanced float double k id x.1 in
        if-intro P (made_program.0 == 0) q (
          if-intro P
            (ltb_ℤ r.attr_pos (pos 0)
              || ltb_ℤ r.uni_angle (pos 0)
              || ltb_ℤ r.uni_offset (pos 0)
              || ltb_ℤ r.uni_color (pos 0))
            q (if-intro P (r.buffer == 0) s (viewport-IsBalanced a.width a.height d s)))

    pub init_egl-IsBalanced :
        (egl : EglHeaders) (r : SetupAnswers) (a : App float double)
        → a.egl_window ≡ none
        → IsUndrawn a
        → IsBalanced float double k id (init_egl float double egl r a).1
    unfolding init_egl
    init_egl-IsBalanced egl r a e u =
        let b = (open_display float double r a).1 in
        let v = open_display-IsUndrawn r a e u in
        let w = open_surface-IsUnlinked egl r b v in
        let P = λ (x : Bool × App float double). IsBalanced float double k id x.1 in
        if-intro P (open_display float double r a).0
          (if-intro P (open_surface float double egl r b).0
            (open_program-IsBalanced r (open_surface float double egl r b).1 w) w.balanced)
          v.unlinked.balanced
