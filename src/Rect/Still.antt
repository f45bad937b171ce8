-- ===== src/Rect/Still.antt =====
-- What leaves visibility and the frame callback alone, and commits nothing.
use webos_wayland.Base.{
  ℕ, zero, suc, ◌≡◌, refl, ◌∙◌, ap, sym, ℤ, pos, Bool, false, ◌&&◌, ◌||◌, not, List, [], ◌∷◌, ◌++◌,
  is_some, get_elem?, total, ltb_ℤ, total-append, arith, Option-cases, Bool-cases, inl, inr,
}
use webos_wayland.Rect.{num_bufs, Effect, set_opaque, commit, App}
use webos_wayland.Rect.Buffers.{
  next_buffer, next_from, clear_buffer, destroy_from, destroy_buffers, init_buffer, allocate,
  Allocation, no_file, no_size, no_mapping, no_pool, no_buffer, allocated, set_surface_opaque,
  buffer_release, fits, size_refused, byte_size, teardown, eq_ℤ,
}
use webos_wayland.Rect.Frame.{Answers, shell_configure}

abbrev pub commits : Effect → ℕ
commits commit = 1
commits _ = 0

-- A window that is not visible waits for no frame.
abbrev pub IsQuiet : App → Type 0
IsQuiet a = a.render_visible ≡ false → is_some a.frame_cb ≡ false

-- Nothing was committed, and what decides whether the window draws is as it was.
pub record Same (a a' : App) : Type 0 where
  pub visible : a'.render_visible ≡ a.render_visible
  pub waits : a'.frame_cb ≡ a.frame_cb
  pub still : total commits a'.done ≡ total commits a.done

pub Same-refl : {a : App} → Same a a
Same-refl = record { visible = refl; waits = refl; still = refl }

pub Same-trans : {a b c : App} → Same a b → Same b c → Same a c
Same-trans s t = record {
  visible = t.visible ∙ s.visible;
  waits = t.waits ∙ s.waits;
  still = t.still ∙ s.still;
}

pub Same-IsQuiet : {a b : App} → Same a b → IsQuiet a → IsQuiet b
Same-IsQuiet s q h = ap (λ o. is_some o) s.waits ∙ q (sym s.visible ∙ h)

-- Effects without a commit.
pub emit-Same :
    (a a' : App) (es : List Effect)
    → a'.render_visible ≡ a.render_visible
    → a'.frame_cb ≡ a.frame_cb
    → a'.done ≡ a.done ++ es
    → total commits es ≡ 0
    → Same a a'
emit-Same a a' es v w d z = record {
  visible = v;
  waits = w;
  still = omega (arith, ap (total commits) d, total-append commits a.done es, z);
}

clear_buffer-Same : (i : ℕ) (a : App) → Same a (clear_buffer i a)
unfolding clear_buffer
clear_buffer-Same i a = elim (Option-cases (get_elem? a.bufs i)) [
  | inl e ↦ rw (e, clear_buffer) Same-refl
  | inr (b, e) ↦ rw (e, clear_buffer) (emit-Same a _ (teardown b) refl refl refl (ground arith))
]

destroy_from-Same : (n i : ℕ) (a : App) → Same a (destroy_from n i a)
unfolding destroy_from
destroy_from-Same zero i a = Same-refl
destroy_from-Same (suc n) i a =
    Same-trans (clear_buffer-Same i a) (destroy_from-Same n (suc i) (clear_buffer i a))

pub set_surface_opaque-Same : (made : Bool) (a : App) → Same a (set_surface_opaque made a)
unfolding set_surface_opaque
set_surface_opaque-Same made a =
    elim (Bool-cases (
      is_some a.compositor
      && is_some a.surface
      && ltb_ℤ (pos 0) a.width
      && ltb_ℤ (pos 0) a.height
      && made)) [
        | inl e ↦ rw e (emit-Same a _ (set_opaque a.width a.height ∷ []) refl refl refl refl)
        | inr e ↦ rw e Same-refl
      ]

pub shell_configure-Same :
    (r : Answers) (width height : ℤ) (a : App) → Same a (shell_configure r width height a)
unfolding shell_configure destroy_buffers
shell_configure-Same r width height a =
    let b = record a { width = width; height = height } in
    elim (Bool-cases (
      ltb_ℤ (pos 0) width
      && ltb_ℤ (pos 0) height
      && (not (eq_ℤ width a.width) || not (eq_ℤ height a.height)))) [
        | inl other ↦ rw other (
            let d = destroy_from-Same num_bufs 0 b in
            let s = set_surface_opaque-Same r.region (destroy_buffers b) in
            record {
              visible = s.visible ∙ d.visible;
              waits = s.waits ∙ d.waits;
              still = s.still ∙ d.still;
            })
        | inr same ↦ rw same Same-refl
      ]

pub buffer_release-Same : (i : ℕ) (a : App) → Same a (buffer_release i a)
unfolding buffer_release
buffer_release-Same i a = elim (Option-cases (get_elem? a.bufs i)) [
  | inl e ↦ rw (e, buffer_release) Same-refl
  | inr (b, e) ↦ rw (e, buffer_release) (record { visible = refl; waits = refl; still = refl })
]

allocate-Same :
    (size : ℕ) (answer : Allocation) (i : ℕ) (a : App) → Same a (allocate size answer i a).1
unfolding allocate
allocate-Same size no_file i a = Same-refl
allocate-Same size no_size i a = emit-Same a _ _ refl refl refl refl
allocate-Same size no_mapping i a = emit-Same a _ _ refl refl refl refl
allocate-Same size no_pool i a = emit-Same a _ _ refl refl refl refl
allocate-Same size no_buffer i a = emit-Same a _ _ refl refl refl refl
allocate-Same size (allocated p memory) i a = emit-Same a _ _ refl refl refl refl

init_buffer-Same :
    (size_limit : ℕ) (answer : Allocation) (i : ℕ) (a : App)
    → Same a (init_buffer size_limit answer i a).1
unfolding init_buffer
init_buffer-Same size_limit answer i a = elim (Bool-cases (size_refused size_limit a)) [
  | inl refused ↦ rw refused Same-refl
  | inr fine ↦ rw fine (allocate-Same (byte_size size_limit a) answer i a)
]

next_from-Same :
    (size_limit : ℕ) (answer : Allocation) (n i : ℕ) (a : App)
    → Same a (next_from size_limit answer n i a).1
unfolding next_from
next_from-Same size_limit answer zero i a = Same-refl
next_from-Same size_limit answer (suc n) i a = elim (Option-cases (get_elem? a.bufs i)) [
  | inl e ↦ rw (e, next_from) Same-refl
  | inr (b, e) ↦ elim (Bool-cases (fits a b)) [
    | inl fit ↦ elim (Bool-cases b.busy) [
      | inl busy ↦ rw (e, next_from, fit, busy) (next_from-Same size_limit answer n (suc i) a)
      | inr free ↦ rw (e, next_from, fit, free) Same-refl
    ]
    | inr stale ↦
        let s =
          Same-trans (clear_buffer-Same i a)
            (init_buffer-Same size_limit answer i (clear_buffer i a)) in
        elim (Bool-cases (init_buffer size_limit answer i (clear_buffer i a)).0) [
          | inl made ↦ rw (e, next_from, stale, made) s
          | inr failed ↦ rw (e, next_from, stale, failed) s
        ]
  ]
]

pub next_buffer-Same :
    (size_limit : ℕ) (answer : Allocation) (a : App) → Same a (next_buffer size_limit answer a).1
unfolding next_buffer
next_buffer-Same size_limit answer a = next_from-Same size_limit answer num_bufs 0 a
