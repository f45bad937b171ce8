-- ===== src/Rect/Choice.antt =====
-- The buffer that `next_buffer` chooses.
use webos_wayland.Base.{
  ℕ, zero, suc, ◌<◌, ◌≡◌, refl, subst, true, false, some, get_elem?, get_elem?-set_self,
  lt_of_get_elem?, length, length-set, arith, Option-cases, Bool-cases, inl, inr,
}
use webos_wayland.Rect.{ShmBuf, num_bufs, App}
use webos_wayland.Rect.Buffers.{
  Allocation, no_file, no_size, no_mapping, no_pool, no_buffer, allocated, blank, allocate,
  init_buffer, clear_buffer, next_from, next_buffer, fits, size_refused, byte_size,
}
use mathlib.Core.Bool.{false≢true}

-- Slot `i` of `a'` holds a free buffer of the size of the window `a`.
pub record IsChosen (i : ℕ) (a a' : App) : Type 0 where
  pub chosen : ShmBuf
  pub at : get_elem? a'.bufs i ≡ some chosen
  pub free : chosen.busy ≡ false
  pub fit : fits a chosen ≡ true

-- `init_buffer` that reports success has put a free buffer of the right size into the slot.
allocate-IsChosen :
    (size : ℕ) (answer : Allocation) (i : ℕ) (a : App)
    → i < length a.bufs
    → (allocate size answer i a).0 ≡ true
    → IsChosen i a (allocate size answer i a).1
unfolding allocate
allocate-IsChosen size (allocated p memory) i a lt made = record {
  chosen = _;
  at = get_elem?-set_self a.bufs i _ lt;
  free = refl;
  fit = ground arith;
}
allocate-IsChosen size no_file i a lt made = cc
allocate-IsChosen size no_size i a lt made = cc
allocate-IsChosen size no_mapping i a lt made = cc
allocate-IsChosen size no_pool i a lt made = cc
allocate-IsChosen size no_buffer i a lt made = cc

-- What `clear_buffer` and `init_buffer` do to the size of the window and to the number of slots.
clear_buffer-size :
    (i : ℕ) (a : App)
    → ((clear_buffer i a).width ≡ a.width)
      × ((clear_buffer i a).height ≡ a.height)
      × (length (clear_buffer i a).bufs ≡ length a.bufs)
unfolding clear_buffer
clear_buffer-size i a = elim (Option-cases (get_elem? a.bufs i)) [
  | inl e ↦ rw (e, clear_buffer) (refl, refl, refl)
  | inr (b, e) ↦ rw (e, clear_buffer) (refl, refl, length-set a.bufs i blank)
]

-- A slot fits two windows of one size alike.
fits-same :
    (a c : App) (b : ShmBuf)
    → c.width ≡ a.width
    → c.height ≡ a.height
    → fits c b ≡ true
    → fits a b ≡ true
fits-same a c b w h f = ground (arith, w, h, f)

remade :
    (size_limit : ℕ) (answer : Allocation) (i : ℕ) (b : ShmBuf) (a : App)
    → get_elem? a.bufs i ≡ some b
    → (init_buffer size_limit answer i (clear_buffer i a)).0 ≡ true
    → IsChosen i a (init_buffer size_limit answer i (clear_buffer i a)).1
unfolding init_buffer
remade size_limit answer i b a e made =
    elim (Bool-cases (size_refused size_limit (clear_buffer i a))) [
      | inl refused ↦ absurd (false≢true (rw refused at made))
      | inr fine ↦
          let c = clear_buffer i a in
          let (w, h, n) = clear_buffer-size i a in
          let r =
            allocate-IsChosen (byte_size size_limit c) answer i c
              (omega (arith, n, lt_of_get_elem? a.bufs i b e)) (rw fine at made) in
          rw fine (record {
            chosen = r.chosen;
            at = r.at;
            free = r.free;
            fit = fits-same a c r.chosen w h r.fit;
          })
    ]

same-slot : {k i : ℕ} → some k ≡ some i → k ≡ i
same-slot h = cc

-- What the loop returns from slot `k` on.
next_from-IsChosen :
    (size_limit : ℕ) (answer : Allocation) (n k : ℕ) (a : App) {i : ℕ}
    → (next_from size_limit answer n k a).0 ≡ some i
    → IsChosen i a (next_from size_limit answer n k a).1
unfolding next_from
next_from-IsChosen size_limit answer zero k a h = cc
next_from-IsChosen size_limit answer (suc n) k a {i} h = elim (Option-cases (get_elem? a.bufs k)) [
  | inl e ↦ let q = rw (e, next_from) at h in cc
  | inr (b, e) ↦ elim (Bool-cases (fits a b)) [
    | inl fit ↦ elim (Bool-cases b.busy) [
      | inl busy ↦
          rw (e, next_from, fit, busy)
            (next_from-IsChosen size_limit answer n (suc k) a (rw (e, next_from, fit, busy) at h))
      | inr free ↦
          let same = same-slot (rw (e, next_from, fit, free) at h) in
          rw (e, next_from, fit, free)
            (record {
              chosen = b;
              at = subst (λ j. get_elem? a.bufs j ≡ some b) same e;
              free = free;
              fit = fit;
            })
    ]
    | inr stale ↦ elim (Bool-cases (init_buffer size_limit answer k (clear_buffer k a)).0) [
      | inl made ↦
          let same = same-slot (rw (e, next_from, stale, made) at h) in
          rw (e, next_from, stale, made)
            (subst (λ j. IsChosen j a (init_buffer size_limit answer k (clear_buffer k a)).1) same
              (remade size_limit answer k b a e made))
      | inr failed ↦ let q = rw (e, next_from, stale, failed) at h in cc
    ]
  ]
]

-- A slot that `next_buffer` returns then holds a buffer that is free and of the size of the window.
pub next_buffer-IsChosen :
    (size_limit : ℕ) (answer : Allocation) (a : App) {i : ℕ}
    → (next_buffer size_limit answer a).0 ≡ some i
    → IsChosen i a (next_buffer size_limit answer a).1
unfolding next_buffer
next_buffer-IsChosen size_limit answer a h = next_from-IsChosen size_limit answer num_bufs 0 a h
