-- ===== src/Rect/Hidden.antt =====
-- A hidden window draws nothing: its frame callback is gone, and nothing is committed.
use webos_wayland.Base.{
  ℕ, ◌+◌, ◌≡◌, ◌≢◌, refl, ◌∙◌, ap, sym, subst, ℤ, Bool, true, false, ◌&&◌, not, Option, none, some,
  List, ◌++◌, is_some, total, total-append, append-nil, arith, Option-cases, Bool-cases, inl, inr,
  ◌==◌,
}
use webos_wayland.Wayland.{Proxy}
use webos_wayland.Rect.{ShmBuf, App}
use webos_wayland.Rect.Picture.{paint, paint_faults}
use webos_wayland.Rect.Buffers.{next_buffer, emit}
use webos_wayland.Rect.Frame.{
  Answers, show, render, visibility_changed, close_requested, frame_done, pixels_of, drop_callback,
}
use webos_wayland.Rect.Ui.{
  Pressed, pointer_enter, pointer_leave, pointer_motion, pointer_button, keyboard_focus,
  keyboard_key, press, key_action, left_button, hits,
}
use webos_wayland.Rect.Choice.{next_buffer-IsChosen}
use webos_wayland.Rect.Accounts.{the-app, taken}
use webos_wayland.Rect.Still.{
  commits, IsQuiet, Same, Same-refl, Same-IsQuiet, emit-Same, shell_configure-Same,
  buffer_release-Same, next_buffer-Same, set_surface_opaque-Same,
}
use webos_wayland.Rect.Trace.{
  Event, frame, visibility, close, configure, release, remote, Remote, enter, leave, motion, button,
  focus, key, use_remote, handle, start, first_frame, Reach, here, next,
}
use mathlib.Core.Bool.{false≢true}

press-Same : (a : App) (x y : ℤ) → Same a (press a x y)
unfolding press
press-Same a x y = elim (Bool-cases (hits a x y 12 34 10 34)) [
  | inl e ↦ rw (e, press) (record { visible = refl; waits = refl; still = refl })
  | inr e ↦ elim (Bool-cases (hits a x y 38 62 10 34)) [
    | inl f ↦ rw (e, f, press) (record { visible = refl; waits = refl; still = refl })
    | inr f ↦ elim (Bool-cases (hits a x y 64 88 10 34)) [
      | inl g ↦ rw (e, f, g, press) (record { visible = refl; waits = refl; still = refl })
      | inr g ↦ elim (Bool-cases (hits a x y 0 500 0 42)) [
        | inl t ↦ rw (e, f, g, t, press) (record { visible = refl; waits = refl; still = refl })
        | inr t ↦ rw (e, f, g, t, press) (record { visible = refl; waits = refl; still = refl })
      ]
    ]
  ]
]

key_action-Same : (a : App) (k : ℕ) → Same a (key_action a k)
unfolding key_action
key_action-Same a k = record { visible = ground arith; waits = ground arith; still = ground arith }

pub use_remote-Same : (wl : Pressed) (e : Remote) (a : App) → Same a (use_remote wl e a)
unfolding use_remote pointer_enter pointer_leave pointer_motion pointer_button keyboard_focus
    keyboard_key
use_remote-Same wl (enter x y) a = record { visible = refl; waits = refl; still = refl }
use_remote-Same wl leave a = record { visible = refl; waits = refl; still = refl }
use_remote-Same wl (motion x y) a = record {
  visible = ground arith;
  waits = ground arith;
  still = ground arith;
}
use_remote-Same wl (button b state x y) a = elim (Bool-cases (b == left_button)) [
  | inl e ↦ elim (Bool-cases (state == wl.button)) [
    | inl f ↦
        rw (e, f)
          (let s = press-Same (record a { pointer_x = x; pointer_y = y }) x y in
            record { visible = s.visible; waits = s.waits; still = s.still })
    | inr f ↦ rw (e, f) (record { visible = refl; waits = refl; still = refl })
  ]
  | inr e ↦ rw e (record { visible = refl; waits = refl; still = refl })
]
use_remote-Same wl (focus on) a = Same-refl
use_remote-Same wl (key k state) a = elim (Bool-cases (state == wl.key)) [
  | inl e ↦ rw e (key_action-Same a k)
  | inr e ↦ rw e Same-refl
]

paint-visible :
    (ready : Bool) (a : App) (p : List ℕ) → (paint ready a p).0.render_visible ≡ a.render_visible
unfolding paint
paint-visible ready a p = elim (Bool-cases a.android_mode) [ inl e ↦ rw e refl | inr e ↦ rw e refl ]

show-visible :
    (r : Answers) (i : ℕ) (b : ShmBuf) (a : App) → (show r i b a).render_visible ≡ a.render_visible
unfolding show
show-visible r i b a = paint-visible r.android_ready a (pixels_of b)

-- `render` leaves visibility alone.
pub render-visible :
    (size_limit : ℕ) (r : Answers) (a : App) {a' : App}
    → render size_limit r a ≡ some a'
    → a'.render_visible ≡ a.render_visible
unfolding render
render-visible size_limit r a h = elim (Bool-cases (a.running && a.render_visible)) [
  | inr off ↦ ap (λ c. c.render_visible) (sym (the-app (rw off at h)))
  | inl on ↦
      let c = (next_buffer size_limit r.allocation a).1 in
      let s = next_buffer-Same size_limit r.allocation a in
      elim (Option-cases (next_buffer size_limit r.allocation a).0) [
        | inl e ↦ ap (λ c. c.render_visible) (sym (the-app (rw (on, e) at h))) ∙ s.visible
        | inr (i, e) ↦
            let k = next_buffer-IsChosen size_limit r.allocation a e in
            elim (Bool-cases (paint_faults c)) [
              | inl bad ↦ let q = rw (on, e, k.at, bad) at h in cc
              | inr fine ↦
                  ap (λ c. c.render_visible) (sym (the-app (rw (on, e, k.at, fine) at h)))
                  ∙ show-visible r i k.chosen c
                  ∙ s.visible
            ]
      ]
]

bright : (a : App) → (a.running && a.render_visible) ≡ true → a.render_visible ≢ false
bright a on dark = ground (arith, on, dark)

no-commits :
    (cb : Option Proxy) (a : App)
    → total commits (a.done ++ drop_callback cb) ≡ total commits a.done
no-commits none a = ap (total commits) (append-nil a.done)
no-commits (some cb) a = omega (arith, total-append commits a.done (drop_callback (some cb)))

visibility_changed-hidden :
    (size_limit : ℕ) (r : Answers) (visible : Bool) (a : App) {a' : App}
    → visibility_changed size_limit r visible a ≡ some a'
    → a'.render_visible ≡ false
    → (is_some a'.frame_cb ≡ false) × (total commits a'.done ≡ total commits a.done)
unfolding visibility_changed
visibility_changed-hidden size_limit r true a {a'} h dark =
    let b = record a { render_visible = true } in
    elim (Bool-cases (a.running && not (is_some a.frame_cb) && is_some a.surface)) [
      | inl again ↦ absurd (false≢true (sym dark ∙ render-visible size_limit r b (rw again at h)))
      | inr quiet ↦
          absurd
            (false≢true (sym dark ∙ ap (λ c. c.render_visible) (sym (the-app (rw quiet at h)))))
    ]
visibility_changed-hidden size_limit r false a {a'} h dark = elim (Option-cases a.frame_cb) [
  | inl e ↦
      let s = the-app (rw e at h) in
      (ap (λ c. is_some c.frame_cb) (sym s), ap (λ c. total commits c.done) (sym s))
  | inr (cb, e) ↦
      let s = the-app (rw e at h) in
      (
        ap (λ c. is_some c.frame_cb) (sym s),
        ap (λ c. total commits c.done) (sym s)
            ∙ (emit-Same a (emit (drop_callback (some cb)) a) (drop_callback (some cb)) refl refl
                refl refl).still,
      )
]

frame_done-hidden :
    (size_limit : ℕ) (r : Answers) (cb : Option Proxy) (a : App) {a' : App}
    → frame_done size_limit r cb a ≡ some a'
    → a'.render_visible ≡ false
    → (is_some a'.frame_cb ≡ false) × (total commits a'.done ≡ total commits a.done)
unfolding frame_done
frame_done-hidden size_limit r cb a {a'} h dark =
    let b = emit (drop_callback cb) (record a { frame_cb = none }) in
    elim (Bool-cases (a.running && a.render_visible)) [
      | inl on ↦
          let t = taken (a.running && a.render_visible) (some b) on h in
          absurd (
            bright a on
              (sym (render-visible size_limit r (record b { frame = a.frame + 1 }) t) ∙ dark))
      | inr off ↦
          let s = the-app (rw off at h) in
          (
            ap (λ c. is_some c.frame_cb) (sym s),
            ap (λ c. total commits c.done) (sym s) ∙ no-commits cb a,
          )
    ]

of-Same :
    {a b c : App}
    → Same a b
    → b ≡ c
    → IsQuiet a
    → c.render_visible ≡ false
    → (is_some c.frame_cb ≡ false) × (total commits c.done ≡ total commits a.done)
of-Same {a} s e q dark = (Same-IsQuiet (subst (Same a) e s) q dark, (subst (Same a) e s).still)

-- One event.
handle-quiet :
    (size_limit : ℕ) (wl : Pressed) (e : Event) (a : App) {a' : App}
    → IsQuiet a
    → handle size_limit wl e a ≡ some a'
    → a'.render_visible ≡ false
    → (is_some a'.frame_cb ≡ false) × (total commits a'.done ≡ total commits a.done)
unfolding handle close_requested
handle-quiet size_limit wl (frame r cb) a q h = frame_done-hidden size_limit r cb a h
handle-quiet size_limit wl (visibility r visible) a q h =
    visibility_changed-hidden size_limit r visible a h
handle-quiet size_limit wl close a q h =
    of-Same {a = a} (record { visible = refl; waits = refl; still = refl }) (the-app h) q
handle-quiet size_limit wl (configure r width height) a q h =
    of-Same (shell_configure-Same r width height a) (the-app h) q
handle-quiet size_limit wl (release i) a q h = of-Same (buffer_release-Same i a) (the-app h) q
handle-quiet size_limit wl (remote e) a q h = of-Same (use_remote-Same wl e a) (the-app h) q

Reach-IsQuiet :
    (size_limit : ℕ) (wl : Pressed) (first : App) {a : App}
    → IsQuiet first
    → Reach size_limit wl first a
    → IsQuiet a
Reach-IsQuiet size_limit wl first q here = q
Reach-IsQuiet size_limit wl first q (next {a} e r h) =
    λ dark. (handle-quiet size_limit wl e a (Reach-IsQuiet size_limit wl first q r) h dark).0

first_frame-visible :
    (size_limit : ℕ) (r : Answers) (mode : Bool) (compositor surface : Proxy) {first : App}
    → first_frame size_limit r (start mode compositor surface) ≡ some first
    → first.render_visible ≡ true
unfolding first_frame start
first_frame-visible size_limit r mode compositor surface h =
    render-visible size_limit r _ h
    ∙ (set_surface_opaque-Same r.region (start mode compositor surface)).visible

-- In the loop of `main`, an event that leaves the window hidden leaves no frame callback behind,
-- and commits nothing.
pub handle-hides :
    (size_limit : ℕ) (wl : Pressed) (r : Answers) (mode : Bool) (compositor surface : Proxy)
    {first : App} (e : Event) {a a' : App}
    → first_frame size_limit r (start mode compositor surface) ≡ some first
    → Reach size_limit wl first a
    → handle size_limit wl e a ≡ some a'
    → a'.render_visible ≡ false
    → (is_some a'.frame_cb ≡ false) × (total commits a'.done ≡ total commits a.done)
handle-hides size_limit wl r mode compositor surface {first} e {a} f reach h dark =
    handle-quiet size_limit wl e a
      (Reach-IsQuiet size_limit wl first
        (λ d.
          absurd (false≢true (sym d ∙ first_frame-visible size_limit r mode compositor surface f)))
        reach)
      h dark
