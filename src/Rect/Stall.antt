-- ===== src/Rect/Stall.antt =====
-- What happens when the compositor holds all the buffers.
use webos_wayland.Base.{
  ℕ, zero, suc, ◌+◌, ◌≡◌, refl, ◌∙◌, ap, sym, ℤ, Bool, true, ◌&&◌, Option, none, some, List, [],
  ◌∷◌, ◌++◌, get_elem?, total, total-append, arith, Option-cases, inl, inr,
}
use webos_wayland.Wayland.{Proxy}
use webos_wayland.Rect.{ShmBuf, Effect, flush, num_bufs, App}
use webos_wayland.Rect.Buffers.{Allocation, next_from, next_buffer, fits, emit, buffer_release}
use webos_wayland.Rect.Frame.{Answers, render, frame_done, drop_callback, shell_configure}
use webos_wayland.Rect.Ui.{Pressed}
use webos_wayland.Rect.Trace.{Remote, use_remote}
use webos_wayland.Rect.Accounts.{taken, the-app}
use webos_wayland.Rect.Still.{
  commits, Same, shell_configure-Same, buffer_release-Same, Same-trans, Same-refl,
}
use webos_wayland.Rect.Hidden.{use_remote-Same}

-- Each slot has a buffer of the window's size, which the compositor holds.
abbrev pub all_held : App → List ShmBuf → Bool
all_held a [] = true
all_held a (b ∷ bs) = (fits a b && b.busy) && all_held a bs

next_from-held :
    (size_limit : ℕ) (answer : Allocation) (n i : ℕ) (a : App)
    → all_held a a.bufs ≡ true
    → next_from size_limit answer n i a ≡ (none, a)
unfolding next_from
next_from-held size_limit answer zero i a held = refl
next_from-held size_limit answer (suc n) i a held = elim (Option-cases (get_elem? a.bufs i)) [
  | inl e ↦ rw (e, next_from) refl
  | inr (b, e) ↦
      let (fit, busy) = slot a a.bufs i held e in
      rw (e, next_from, fit, busy) (next_from-held size_limit answer n (suc i) a held)
]
  where
    slot :
        (a : App) (l : List ShmBuf) (i : ℕ) {b : ShmBuf}
        → all_held a l ≡ true
        → get_elem? l i ≡ some b
        → (fits a b ≡ true) × (b.busy ≡ true)
    slot a (c ∷ l) zero held e = ground (arith, held, e)
    slot a (c ∷ l) (suc i) held e = slot a l i (ground (arith, held)) e
    slot a [] i held e = ground (arith, e)

-- What goes on while no frame is due: the size, the released buffers and the remote.
pub data Idle : Type 0 where
  configure : Answers → ℤ → ℤ → Idle
  release : ℕ → Idle
  remote : Remote → Idle

unfoldable pub idle : Pressed → Idle → App → App
idle wl (configure r width height) a = shell_configure r width height a
idle wl (release i) a = buffer_release i a
idle wl (remote e) a = use_remote wl e a

unfoldable pub idle_run : Pressed → List Idle → App → App
unfolding idle
idle_run wl [] a = a
idle_run wl (e ∷ es) a = idle_run wl es (idle wl e a)

idle-Same : (wl : Pressed) (e : Idle) (a : App) → Same a (idle wl e a)
unfolding idle
idle-Same wl (configure r width height) a = shell_configure-Same r width height a
idle-Same wl (release i) a = buffer_release-Same i a
idle-Same wl (remote e) a = use_remote-Same wl e a

idle_run-Same : (wl : Pressed) (es : List Idle) (a : App) → Same a (idle_run wl es a)
unfolding idle_run
idle_run-Same wl [] a = Same-refl
idle_run-Same wl (e ∷ es) a = Same-trans (idle-Same wl e a) (idle_run-Same wl es (idle wl e a))

render-held :
    (size_limit : ℕ) (r : Answers) (a : App)
    → all_held a a.bufs ≡ true
    → (a.running && a.render_visible) ≡ true
    → render size_limit r a ≡ some (emit (flush ∷ []) a)
unfolding render next_buffer
render-held size_limit r a held on =
    let e = next_from-held size_limit r.allocation num_bufs 0 a held in
    rw (on, ap (λ q. q.0) e) (ap (λ (q : Option ℕ × App). some (emit (flush ∷ []) q.1)) e)

-- A frame that finds every buffer held asks for no other frame, and whatever is configured, released
-- or done with the remote after it, nothing is committed and no frame is due.
pub frame_done-stalls :
    (size_limit : ℕ) (wl : Pressed) (r : Answers) (cb : Option Proxy) (es : List Idle) (a : App)
    {a' : App}
    → all_held a a.bufs ≡ true
    → (a.running && a.render_visible) ≡ true
    → frame_done size_limit r cb a ≡ some a'
    → ((idle_run wl es a').frame_cb ≡ none)
      × (total commits (idle_run wl es a').done ≡ total commits a.done)
unfolding frame_done
frame_done-stalls size_limit wl r cb es a {a'} held on h =
    let b = emit (drop_callback cb) (record a { frame_cb = none }) in
    let c = record b { frame = a.frame + 1 } in
    let t = taken (a.running && a.render_visible) (some b) on h in
    let s =
      the-app (sym (render-held size_limit r c (held-same a c a.bufs refl refl held) on) ∙ t) in
    let i = idle_run-Same wl es a' in
    (
      i.waits ∙ ap (λ d. d.frame_cb) (sym s),
      i.still ∙ ap (λ d. total commits d.done) (sym s) ∙ no-commits cb a.done,
    )
  where
    held-same :
        (a c : App) (l : List ShmBuf)
        → c.width ≡ a.width
        → c.height ≡ a.height
        → all_held a l ≡ true
        → all_held c l ≡ true
    held-same a c [] w h held = refl
    held-same a c (b ∷ l) w h held = ground (arith, w, h, held, held-same a c l w h)

    no-commits :
        (cb : Option Proxy) (done : List Effect)
        → total commits ((done ++ drop_callback cb) ++ (flush ∷ [])) ≡ total commits done
    no-commits none done =
        omega (arith, total-append commits (done ++ []) (flush ∷ []), total-append commits done [])
    no-commits (some cb) done = omega (
      arith,
      total-append commits (done ++ drop_callback (some cb)) (flush ∷ []),
      total-append commits done (drop_callback (some cb)),
    )
