-- ===== src/Rect/Accounts.antt =====
-- Every event keeps the accounts of `Rect.Pool` in order, and `destroy_buffers` closes them.
use webos_wayland.Base.{
  ℕ, ◌+◌, ◌≡◌, refl, ap, sym, subst, ℤ, pos, Bool, true, false, ◌&&◌, ◌||◌, not, Option, none, some,
  List, [], ◌∷◌, ◌++◌, if◌then◌else◌, is_some, get_elem?, set, append-nil, arith, Option-cases,
  Bool-cases, inl, inr, ltb_ℤ,
}
use webos_wayland.Wayland.{Proxy}
use webos_wayland.Rect.{
  ShmBuf, num_bufs, Effect, set_opaque, flush, attach, damage, request_frame, commit, App,
}
use webos_wayland.Rect.Picture.{paint, paint_faults}
use webos_wayland.Rect.Buffers.{
  next_buffer, destroy_buffers, set_surface_opaque, emit, fits, eq_ℤ, fits,
}
use webos_wayland.Rect.Frame.{
  Answers, show, render, visibility_changed, frame_done, shell_configure, pixels_of, drop_callback,
}
use webos_wayland.Rect.Pool.{
  SlotOk, IsPool, IsEven, put-IsPool, emit-IsPool, destroy_from-IsPool, slot-SlotOk, has_pixels,
}
use webos_wayland.Rect.Init.{next_buffer-IsPool}
use webos_wayland.Rect.Choice.{next_buffer-IsChosen}

-- `paint` moves the window and looks for Android; the buffers and the calls are not its business.
pub paint-bufs : (ready : Bool) (a : App) (p : List ℕ) → (paint ready a p).0.bufs ≡ a.bufs
unfolding paint
paint-bufs ready a p = elim (Bool-cases a.android_mode) [ inl e ↦ rw e refl | inr e ↦ rw e refl ]

pub paint-done : (ready : Bool) (a : App) (p : List ℕ) → (paint ready a p).0.done ≡ a.done
unfolding paint
paint-done ready a p = elim (Bool-cases a.android_mode) [ inl e ↦ rw e refl | inr e ↦ rw e refl ]

-- what `show` asks for
abbrev shown : Option Proxy → ℤ → ℤ → Option Proxy → Option Proxy → List Effect
shown p w h cb next_cb =
    attach p ∷ damage w h ∷ (drop_callback cb ++ (request_frame next_cb ∷ commit ∷ flush ∷ []))

pub the-app : {a a' : App} → some a ≡ some a' → a ≡ a'
the-app h = cc

-- the branch that is taken
pub taken :
    (t : Bool) {x : Option App} (y : Option App) {z : Option App}
    → t ≡ true
    → (if t then x else y) ≡ z
    → x ≡ z
taken true y e h = h
taken false y e h = cc

module _ (size_limit id : ℕ) where
  shown-IsEven :
      (p : Option Proxy) (w h : ℤ) (cb next_cb : Option Proxy) → IsEven id (shown p w h cb next_cb)
  shown-IsEven p w h none next_cb = ground arith
  shown-IsEven p w h (some cb) next_cb = ground arith

  drop_callback-IsEven : (cb : Option Proxy) → IsEven id (drop_callback cb)
  drop_callback-IsEven none = ground arith
  drop_callback-IsEven (some cb) = ground arith

  -- A slot with a buffer stays in order when it is painted and handed over.
  shown-SlotOk :
      (b : ShmBuf) (p : List ℕ)
      → is_some b.wlbuf ≡ true
      → SlotOk size_limit b
      → SlotOk size_limit (record b { pixels = some p; busy = true })
  shown-SlotOk b p wl ok = ground (arith, ok.sized, ok.paired)

  same-pixels :
      (b : ShmBuf) (p : List ℕ)
      → is_some b.wlbuf ≡ true
      → SlotOk size_limit b
      → has_pixels id (record b { pixels = some p; busy = true }) ≡ has_pixels id b
  same-pixels b p wl ok = ground (arith, ok.paired)

  show-IsPool :
      (r : Answers) (i : ℕ) (b : ShmBuf) (a : App)
      → get_elem? a.bufs i ≡ some b
      → is_some b.wlbuf ≡ true
      → IsPool size_limit id a
      → IsPool size_limit id (show r i b a)
  unfolding show
  show-IsPool r i b a at wl v =
      let (a', p) = paint r.android_ready a (pixels_of b) in
      let ok = slot-SlotOk size_limit id i v at in
      let even = shown-IsEven b.wlbuf a'.width a'.height a'.frame_cb r.callback in
      put-IsPool size_limit id a (show r i b a) i b (record b { pixels = some p; busy = true })
        (shown b.wlbuf a'.width a'.height a'.frame_cb r.callback) v at (shown-SlotOk b p wl ok)
        (ap (λ l. set l i (record b { pixels = some p; busy = true }))
          (paint-bufs r.android_ready a (pixels_of b)))
        (ap (λ l. l ++ shown b.wlbuf a'.width a'.height a'.frame_cb r.callback)
          (paint-done r.android_ready a (pixels_of b)))
        even.files (omega (arith, even.memory, same-pixels b p wl ok)) (omega (arith, even.buffers))

  wlbuf-fits : (a : App) (b : ShmBuf) → fits a b ≡ true → is_some b.wlbuf ≡ true
  wlbuf-fits a b f = ground arith

  pub render-IsPool :
      (r : Answers) (a : App) {a' : App}
      → IsPool size_limit id a
      → render size_limit r a ≡ some a'
      → IsPool size_limit id a'
  unfolding render
  render-IsPool r a {a'} v h = elim (Bool-cases (a.running && a.render_visible)) [
    | inr off ↦ subst (IsPool size_limit id) (the-app (rw off at h)) v
    | inl on ↦
        let c = (next_buffer size_limit r.allocation a).1 in
        let w = next_buffer-IsPool size_limit id r.allocation a v in
        elim (Option-cases (next_buffer size_limit r.allocation a).0) [
          | inl e ↦
              subst (IsPool size_limit id) (the-app (rw (on, e) at h))
                (emit-IsPool size_limit id c _ (flush ∷ []) w refl refl (ground arith))
          | inr (i, e) ↦
              let k = next_buffer-IsChosen size_limit r.allocation a e in
              elim (Bool-cases (paint_faults c)) [
                | inl bad ↦ let q = rw (on, e, k.at, bad) at h in cc
                | inr fine ↦
                    subst (IsPool size_limit id) (the-app (rw (on, e, k.at, fine) at h))
                      (show-IsPool r i k.chosen c k.at (wlbuf-fits a k.chosen k.fit) w)
              ]
        ]
  ]

  pub visibility_changed-IsPool :
      (r : Answers) (visible : Bool) (a : App) {a' : App}
      → IsPool size_limit id a
      → visibility_changed size_limit r visible a ≡ some a'
      → IsPool size_limit id a'
  unfolding visibility_changed
  visibility_changed-IsPool r visible a {a'} v h =
      let b = record a { render_visible = visible } in
      let w = emit-IsPool size_limit id a b [] v refl (sym (append-nil a.done)) (ground arith) in
      elim (Bool-cases (not visible && is_some a.frame_cb)) [
        | inl hide ↦ subst (IsPool size_limit id) (the-app (rw hide at h)) (
            emit-IsPool size_limit id a _ (drop_callback a.frame_cb) v refl refl
              (drop_callback-IsEven a.frame_cb))
        | inr stay ↦
            elim (Bool-cases
              (visible && a.running && not (is_some a.frame_cb) && is_some a.surface)) [
                | inl again ↦ render-IsPool r b w (rw (stay, again) at h)
                | inr quiet ↦ subst (IsPool size_limit id) (the-app (rw (stay, quiet) at h)) w
              ]
      ]

  pub frame_done-IsPool :
      (r : Answers) (cb : Option Proxy) (a : App) {a' : App}
      → IsPool size_limit id a
      → frame_done size_limit r cb a ≡ some a'
      → IsPool size_limit id a'
  unfolding frame_done
  frame_done-IsPool r cb a {a'} v h =
      let b = emit (drop_callback cb) (record a { frame_cb = none }) in
      let w =
        emit-IsPool size_limit id a b (drop_callback cb) v refl refl (drop_callback-IsEven cb) in
      elim (Bool-cases (a.running && a.render_visible)) [
        | inl on ↦
            render-IsPool r (record b { frame = a.frame + 1 })
              (emit-IsPool size_limit id a _ (drop_callback cb) v refl refl
                (drop_callback-IsEven cb))
              (taken (a.running && a.render_visible) (some b) on h)
        | inr off ↦ subst (IsPool size_limit id) (the-app (rw off at h)) w
      ]

  pub set_surface_opaque-IsPool :
      (made : Bool) (a : App)
      → IsPool size_limit id a
      → IsPool size_limit id (set_surface_opaque made a)
  unfolding set_surface_opaque
  set_surface_opaque-IsPool made a v =
      elim (Bool-cases (
        is_some a.compositor
        && is_some a.surface
        && ltb_ℤ (pos 0) a.width
        && ltb_ℤ (pos 0) a.height
        && made)) [
          | inl shows ↦ rw shows (
              emit-IsPool size_limit id a (emit (set_opaque a.width a.height ∷ []) a)
                (set_opaque a.width a.height ∷ []) v refl refl (ground arith))
          | inr bare ↦ rw bare v
        ]

  pub destroy_buffers-IsPool :
      (a : App) → IsPool size_limit id a → IsPool size_limit id (destroy_buffers a)
  unfolding destroy_buffers
  destroy_buffers-IsPool a v = destroy_from-IsPool size_limit id num_bufs 0 a v

  pub shell_configure-IsPool :
      (r : Answers) (width height : ℤ) (a : App)
      → IsPool size_limit id a
      → IsPool size_limit id (shell_configure r width height a)
  unfolding shell_configure
  shell_configure-IsPool r width height a v =
      let b = record a { width = width; height = height } in
      elim (Bool-cases (
        ltb_ℤ (pos 0) width
        && ltb_ℤ (pos 0) height
        && (not (eq_ℤ width a.width) || not (eq_ℤ height a.height)))) [
          | inl other ↦ rw other (
              set_surface_opaque-IsPool r.region (destroy_buffers b) (
                destroy_buffers-IsPool b (
                  emit-IsPool size_limit id a b [] v refl (sym (append-nil a.done))
                    (ground arith))))
          | inr same ↦ rw same v
        ]
