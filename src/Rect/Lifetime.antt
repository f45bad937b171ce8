-- ===== src/Rect/Lifetime.antt =====
-- The whole life of the renderer's buffers: from the start to the last `destroy_buffers`.
use webos_wayland.Base.{
  ℕ, ◌≡◌, refl, ◌∙◌, ap, sym, subst, ℤ, Bool, false, some, List, [], ◌∷◌, length, total, append-nil,
  arith, Bool-cases, inl, inr, replicate, ◌==◌,
}
use webos_wayland.Wayland.{Proxy}
use webos_wayland.Rect.{ShmBuf, num_bufs, App}
use webos_wayland.Rect.Buffers.{blank, destroy_buffers, destroy_from, clear_buffer}
use webos_wayland.Rect.Frame.{Answers, close_requested}
use webos_wayland.Rect.Ui.{
  Pressed, pointer_enter, pointer_leave, pointer_motion, pointer_button, keyboard_focus,
  keyboard_key, press, key_action, left_button, hits,
}
use webos_wayland.Rect.Pool.{
  IsPool, emit-IsPool, buffer_release-IsPool, blank-SlotOk, opened, closed, mapped, unmapped,
  created, destroyed, has_pixels, holds,
}
use webos_wayland.Rect.Accounts.{
  visibility_changed-IsPool, frame_done-IsPool, shell_configure-IsPool, destroy_buffers-IsPool,
  render-IsPool, set_surface_opaque-IsPool, the-app,
}
use webos_wayland.Rect.Trace.{
  Event, frame, visibility, close, configure, release, remote, Remote, enter, leave, motion, button,
  focus, key, use_remote, handle, start, first_frame, Reach, here, next,
}

-- The remote does not touch the buffers.
press-pool : (a : App) (x y : ℤ) → ((press a x y).bufs ≡ a.bufs) × ((press a x y).done ≡ a.done)
unfolding press
press-pool a x y = elim (Bool-cases (hits a x y 12 34 10 34)) [
  | inl e ↦ rw (e, press) (refl, refl)
  | inr e ↦ elim (Bool-cases (hits a x y 38 62 10 34)) [
    | inl f ↦ rw (e, f, press) (refl, refl)
    | inr f ↦ elim (Bool-cases (hits a x y 64 88 10 34)) [
      | inl g ↦ rw (e, f, g, press) (refl, refl)
      | inr g ↦ elim (Bool-cases (hits a x y 0 500 0 42)) [
        | inl t ↦ rw (e, f, g, t, press) (refl, refl)
        | inr t ↦ rw (e, f, g, t, press) (refl, refl)
      ]
    ]
  ]
]

key_action-pool :
    (a : App) (k : ℕ) → ((key_action a k).bufs ≡ a.bufs) × ((key_action a k).done ≡ a.done)
unfolding key_action
key_action-pool a k = ground arith

use_remote-pool :
    (wl : Pressed) (e : Remote) (a : App)
    → ((use_remote wl e a).bufs ≡ a.bufs) × ((use_remote wl e a).done ≡ a.done)
unfolding use_remote pointer_enter pointer_leave pointer_motion pointer_button keyboard_focus
    keyboard_key
use_remote-pool wl (enter x y) a = (refl, refl)
use_remote-pool wl leave a = (refl, refl)
use_remote-pool wl (motion x y) a = ground arith
use_remote-pool wl (button b state x y) a = elim (Bool-cases (b == left_button)) [
  | inl e ↦ elim (Bool-cases (state == wl.button)) [
    | inl f ↦ rw (e, f) (press-pool (record a { pointer_x = x; pointer_y = y }) x y)
    | inr f ↦ rw (e, f) (refl, refl)
  ]
  | inr e ↦ rw e (refl, refl)
]
use_remote-pool wl (focus on) a = (refl, refl)
use_remote-pool wl (key k state) a = elim (Bool-cases (state == wl.key)) [
  | inl e ↦ rw e (key_action-pool a k)
  | inr e ↦ rw e (refl, refl)
]

cleared :
    (a : App) (l : List ShmBuf)
    → a.bufs ≡ l
    → length l ≡ num_bufs
    → (destroy_buffers a).bufs ≡ replicate num_bufs blank
unfolding destroy_buffers destroy_from clear_buffer
cleared a [] e h = ground arith
cleared a (b ∷ []) e h = ground arith
cleared a (b ∷ c ∷ []) e h = ground arith
cleared a (b ∷ c ∷ d ∷ []) e h = rw e refl
cleared a (b ∷ c ∷ d ∷ f ∷ l) e h = ground arith

module _ (size_limit id : ℕ) where
  pub start-IsPool :
      (mode : Bool) (compositor surface : Proxy)
      → IsPool size_limit id (start mode compositor surface)
  unfolding start
  start-IsPool mode compositor surface = record {
    slots = refl;
    each = (blank-SlotOk size_limit, (blank-SlotOk size_limit, (blank-SlotOk size_limit, _)));
    files = refl;
    memory = refl;
    buffers = refl;
  }

  handle-IsPool :
      (wl : Pressed) (e : Event) (a : App) {a' : App}
      → IsPool size_limit id a
      → handle size_limit wl e a ≡ some a'
      → IsPool size_limit id a'
  unfolding handle close_requested
  handle-IsPool wl (frame r cb) a v h = frame_done-IsPool size_limit id r cb a v h
  handle-IsPool wl (visibility r visible) a v h =
      visibility_changed-IsPool size_limit id r visible a v h
  handle-IsPool wl close a v h = subst (IsPool size_limit id) (the-app h) (
      emit-IsPool size_limit id a (record a { running = false }) [] v refl (sym (append-nil a.done))
        (ground arith))
  handle-IsPool wl (configure r width height) a v h =
      subst (IsPool size_limit id) (the-app h)
        (shell_configure-IsPool size_limit id r width height a v)
  handle-IsPool wl (release i) a v h =
      subst (IsPool size_limit id) (the-app h) (buffer_release-IsPool size_limit id i a v)
  handle-IsPool wl (remote e) a v h =
      let (b, d) = use_remote-pool wl e a in
      subst (IsPool size_limit id) (the-app h) (
        emit-IsPool size_limit id a (use_remote wl e a) [] v b (d ∙ sym (append-nil a.done))
          (ground arith))

  -- From a first app with its accounts in order, every app has them in order.
  pub Reach-IsPool :
      (wl : Pressed) (first : App) {a : App}
      → IsPool size_limit id first
      → Reach size_limit wl first a
      → IsPool size_limit id a
  Reach-IsPool wl first v here = v
  Reach-IsPool wl first v (next {a} e r h) = handle-IsPool wl e a (Reach-IsPool wl first v r) h

  -- `main` puts them in order with its first frame.
  first_frame-IsPool :
      (wl : Pressed) (r : Answers) (mode : Bool) (compositor surface : Proxy) {first a : App}
      → first_frame size_limit r (start mode compositor surface) ≡ some first
      → Reach size_limit wl first a
      → IsPool size_limit id a
  unfolding first_frame
  first_frame-IsPool wl r mode compositor surface {first} {a} h reach =
      let s =
        set_surface_opaque-IsPool size_limit id r.region _ (start-IsPool mode compositor surface) in
      Reach-IsPool wl first (render-IsPool size_limit id r _ s h) reach

-- After `main` has shown its first frame, in any app that its loop leaves, `destroy_buffers` closes
-- the accounts: each temporary file was closed, as many mappings of `bytes` bytes were unmapped with
-- that length as were made, and the buffer `id` was destroyed as often as it was created.
pub destroy_buffers-releases_pool :
    (size_limit bytes id : ℕ) (wl : Pressed) (r : Answers) (mode : Bool)
    (compositor surface : Proxy) {first a : App}
    → first_frame size_limit r (start mode compositor surface) ≡ some first
    → Reach size_limit wl first a
    → (total opened (destroy_buffers a).done ≡ total closed (destroy_buffers a).done)
      × (total (mapped bytes) (destroy_buffers a).done
          ≡ total (unmapped bytes) (destroy_buffers a).done)
      × (total (created id) (destroy_buffers a).done
          ≡ total (destroyed id) (destroy_buffers a).done)
destroy_buffers-releases_pool size_limit bytes id wl r mode compositor surface {first} {a} h reach =
    let v = first_frame-IsPool size_limit bytes wl r mode compositor surface h reach in
    let w = first_frame-IsPool size_limit id wl r mode compositor surface h reach in
    let c = cleared a a.bufs refl v.slots in
    let x = destroy_buffers-IsPool size_limit bytes a v in
    let y = destroy_buffers-IsPool size_limit id a w in
    (
      x.files,
      omega (arith, x.memory, ap (total (has_pixels bytes)) c),
      omega (arith, y.buffers, ap (total (holds id)) c),
    )
