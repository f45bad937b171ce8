-- ===== src/Egl/Keeps.antt =====
-- What the remote and a new size leave alone.
use webos_wayland.Base.{
  ℕ, ◌≡◌, refl, ◌∙◌, ℤ, pos, Bool, ◌&&◌, ◌||◌, Option, none, some, List, [], ◌∷◌, ◌++◌, is_some,
  ltb_ℤ, ◌==◌, if-intro, append-nil, append_assoc, sym, ap,
}
use webos_wayland.Wayland.{Proxy}
use webos_wayland.Rect.Ui.{
  Pressed, left_button, key_esc, key_back, key_enter, key_left, key_right, key_up, key_down,
}
use webos_wayland.Rect.Trace.{Remote, enter, leave, motion, button, focus, key}
use webos_wayland.Egl.{Floats, Effect, App, resize_window, viewport, set_opaque}
use webos_wayland.Egl.Frame.{Answers, shell_configure, set_surface_opaque, resizing, emit}
use webos_wayland.Egl.Ui.{
  pointer_enter, pointer_leave, pointer_motion, pointer_button, keyboard_focus, keyboard_key,
  move_to, key_moves, note_input,
}
use webos_wayland.Egl.Trace.{use_remote}

module _ (float double : Floats) where
  -- Effects that only change the size.
  pub data IsSizing : List (Effect float) → Type 0 where
    no_sizing : IsSizing []
    resizes :
        {w : Proxy} {x y : ℤ} {es : List (Effect float)}
        → IsSizing es
        → IsSizing (resize_window w x y ∷ es)
    views : {x y : ℤ} {es : List (Effect float)} → IsSizing es → IsSizing (viewport x y ∷ es)
    covers : {x y : ℤ} {es : List (Effect float)} → IsSizing es → IsSizing (set_opaque x y ∷ es)

  pub IsSizing-append :
      {es fs : List (Effect float)} → IsSizing es → IsSizing fs → IsSizing (es ++ fs)
  IsSizing-append no_sizing q = q
  IsSizing-append (resizes p) q = resizes (IsSizing-append p q)
  IsSizing-append (views p) q = views (IsSizing-append p q)
  IsSizing-append (covers p) q = covers (IsSizing-append p q)

  -- The fields that the remote and a new size do not write.
  pub record Core : Type 0 where
    pub intervals : Option (List double.F)
    pub submits : Option (List double.F)
    pub swaps : Option (List double.F)
    pub callbacks : Option (List double.F)
    pub waits : Option Proxy
    pub visible : Bool
    pub window : Option Proxy
    pub display : Option ℕ
    pub context : Option ℕ
    pub surface : Option ℕ
    pub program : ℕ
    pub vbo : ℕ

  abbrev pub core : App float double → Core
  core a = record {
    intervals = a.callback_intervals;
    submits = a.input_submit_samples;
    swaps = a.input_swap_samples;
    callbacks = a.input_callback_samples;
    waits = a.frame_cb;
    visible = a.render_visible;
    window = a.egl_window;
    display = a.egl_display;
    context = a.egl_context;
    surface = a.egl_surface;
    program = a.program;
    vbo = a.vbo;
  }

  -- `a'` keeps the core of `a`, and only sizes were asked for in between.
  pub record Keeps (a a' : App float double) : Type 0 where
    pub same : core a' ≡ core a
    pub asked : (es : List (Effect float)) × IsSizing es × (a'.done ≡ a.done ++ es)

  pub quiet-Keeps : (a a' : App float double) → core a' ≡ core a → a'.done ≡ a.done → Keeps a a'
  quiet-Keeps a a' c d = record { same = c; asked = ([], no_sizing, d ∙ sym (append-nil a.done)) }

  pub Keeps-trans : {a b c : App float double} → Keeps a b → Keeps b c → Keeps a c
  Keeps-trans {a} {b} {c} k l =
      let (es, p, e) = k.asked in
      let (fs, q, f) = l.asked in
      record {
        same = l.same ∙ k.same;
        asked =
            (es ++ fs, IsSizing-append p q, f ∙ ap (λ d. d ++ fs) e ∙ append_assoc a.done es fs);
      }

  -- The remote.
  key_moves-Keeps : (k : ℕ) (a : App float double) → Keeps a (key_moves float double k a)
  unfolding key_moves
  key_moves-Keeps k a = if-intro (Keeps a) (k == key_enter) (quiet-Keeps a _ refl refl) (
      if-intro (Keeps a) (k == key_left) (quiet-Keeps a _ refl refl) (
        if-intro (Keeps a) (k == key_right) (quiet-Keeps a _ refl refl) (
          if-intro (Keeps a) (k == key_up) (quiet-Keeps a _ refl refl) (
            if-intro (Keeps a) (k == key_down) (quiet-Keeps a _ refl refl)
              (quiet-Keeps a a refl refl)))))

  keyboard_key-Keeps :
      (wl : Pressed) (now : double.F) (a : App float double) (k state : ℕ)
      → Keeps a (keyboard_key float double wl now a k state)
  unfolding keyboard_key
  keyboard_key-Keeps wl now a k state =
      if-intro (Keeps a) (state == wl.key)
        (if-intro (Keeps a) (k == key_esc || (k == key_back)) (quiet-Keeps a _ refl refl) (
          let m = key_moves-Keeps k (note_input float double now a) in
          record { same = m.same; asked = m.asked }))
        (quiet-Keeps a a refl refl)

  pointer_button-Keeps :
      (wl : Pressed) (now : double.F) (a : App float double) (b state : ℕ) (x y : ℤ)
      → Keeps a (pointer_button float double wl now a b state x y)
  unfolding pointer_button move_to
  pointer_button-Keeps wl now a b state x y =
      if-intro (Keeps a) (b == left_button && (state == wl.button))
        (let m =
            if-intro (Keeps a) (ltb_ℤ (pos 0) a.width && ltb_ℤ (pos 0) a.height)
              (quiet-Keeps a _ refl refl) (quiet-Keeps a _ refl refl) in
          record { same = m.same; asked = m.asked })
        (quiet-Keeps a _ refl refl)

  pub use_remote-Keeps :
      (wl : Pressed) (now : double.F) (e : Remote) (a : App float double)
      → Keeps a (use_remote float double wl now e a)
  unfolding use_remote pointer_enter pointer_leave pointer_motion keyboard_focus
  use_remote-Keeps wl now (enter x y) a = quiet-Keeps a _ refl refl
  use_remote-Keeps wl now leave a = quiet-Keeps a _ refl refl
  use_remote-Keeps wl now (motion x y) a = quiet-Keeps a _ refl refl
  use_remote-Keeps wl now (button b state x y) a = pointer_button-Keeps wl now a b state x y
  use_remote-Keeps wl now (focus on) a = quiet-Keeps a a refl refl
  use_remote-Keeps wl now (key k state) a = keyboard_key-Keeps wl now a k state

  -- The size.
  asks-Keeps :
      (a a' : App float double) (es : List (Effect float))
      → IsSizing es
      → core a' ≡ core a
      → a'.done ≡ a.done ++ es
      → Keeps a a'
  asks-Keeps a a' es p c d = record { same = c; asked = (es, p, d) }

  resizing-IsSizing :
      (width height : ℤ) (w : Option Proxy) → IsSizing (resizing float double width height w)
  resizing-IsSizing width height none = no_sizing
  resizing-IsSizing width height (some w) = resizes no_sizing

  pub set_surface_opaque-Keeps :
      (made : Bool) (a : App float double) → Keeps a (set_surface_opaque float double made a)
  unfolding set_surface_opaque
  set_surface_opaque-Keeps made a =
      if-intro (Keeps a)
        (is_some a.compositor
          && is_some a.surface
          && ltb_ℤ (pos 0) a.width
          && ltb_ℤ (pos 0) a.height
          && made)
        (asks-Keeps a _ (set_opaque a.width a.height ∷ []) (covers no_sizing) refl refl)
        (quiet-Keeps a a refl refl)

  pub shell_configure-Keeps :
      (r : Answers double) (width height : ℤ) (a : App float double)
      → Keeps a (shell_configure float double r width height a)
  unfolding shell_configure
  shell_configure-Keeps r width height a =
      let c =
        emit float double (resizing float double width height a.egl_window)
          (record a { width = width; height = height }) in
      let k =
        Keeps-trans (asks-Keeps a c _ (resizing-IsSizing width height a.egl_window) refl refl)
          (set_surface_opaque-Keeps r.region c) in
      if-intro (Keeps a) (ltb_ℤ (pos 0) width && ltb_ℤ (pos 0) height)
        (if-intro (Keeps a) (is_some a.egl_context)
          (Keeps-trans k (
            asks-Keeps (set_surface_opaque float double r.region c) _ (viewport width height ∷ [])
              (views no_sizing) refl refl))
          k)
        (quiet-Keeps a a refl refl)
