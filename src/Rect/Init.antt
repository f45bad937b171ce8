-- ===== src/Rect/Init.antt =====
-- `init_buffer` and `next_buffer`: what they find, and that they keep the accounts of `Rect.Pool`.
use webos_wayland.Base.{
  ℕ, zero, suc, ◌≡◌, refl, false, some, get_elem?, get_elem?-set_self, lt_of_get_elem?, arith,
  Option-cases, Bool-cases, inl, inr,
}
use webos_wayland.Rect.{ShmBuf, num_bufs, App}
use webos_wayland.Rect.Buffers.{
  Allocation, no_file, no_size, no_mapping, no_pool, no_buffer, allocated, blank, allocate,
  init_buffer, clear_buffer, next_from, next_buffer, fits, size_refused, byte_size,
}
use webos_wayland.Rect.Pool.{IsPool, put-IsPool, emit-IsPool, clear_buffer-IsPool}

module _ (size_limit id : ℕ) where
  -- With an empty slot the accounts stay in order however far `init_buffer` comes.
  allocate-IsPool :
      (answer : Allocation) (i : ℕ) (a : App)
      → get_elem? a.bufs i ≡ some blank
      → IsPool size_limit id a
      → IsPool size_limit id (allocate (byte_size size_limit a) answer i a).1
  unfolding allocate
  allocate-IsPool no_file i a e v = v
  allocate-IsPool no_size i a e v = emit-IsPool size_limit id a _ _ v refl refl (ground arith)
  allocate-IsPool no_mapping i a e v = emit-IsPool size_limit id a _ _ v refl refl (ground arith)
  allocate-IsPool no_pool i a e v = emit-IsPool size_limit id a _ _ v refl refl (ground arith)
  allocate-IsPool no_buffer i a e v = emit-IsPool size_limit id a _ _ v refl refl (ground arith)
  allocate-IsPool (allocated p memory) i a e v =
      put-IsPool size_limit id a (allocate (byte_size size_limit a) (allocated p memory) i a).1 i
        blank
        (record {
          wlbuf = some p;
          pixels = some (memory (byte_size size_limit a));
          size = byte_size size_limit a;
          width = a.width;
          height = a.height;
          busy = false;
        })
        _ v e (ground arith) refl refl refl (omega arith) (omega arith)

  init_buffer-IsPool :
      (answer : Allocation) (i : ℕ) (a : App)
      → get_elem? a.bufs i ≡ some blank
      → IsPool size_limit id a
      → IsPool size_limit id (init_buffer size_limit answer i a).1
  unfolding init_buffer
  init_buffer-IsPool answer i a e v = elim (Bool-cases (size_refused size_limit a)) [
    | inl refused ↦ rw refused v
    | inr fine ↦ rw fine (allocate-IsPool answer i a e v)
  ]

  cleared :
      (i : ℕ) (b : ShmBuf) (a : App)
      → get_elem? a.bufs i ≡ some b
      → get_elem? (clear_buffer i a).bufs i ≡ some blank
  unfolding clear_buffer
  cleared i b a e = ground (arith, get_elem?-set_self a.bufs i blank (lt_of_get_elem? a.bufs i b e))

  next_from-IsPool :
      (answer : Allocation) (n i : ℕ) (a : App)
      → IsPool size_limit id a
      → IsPool size_limit id (next_from size_limit answer n i a).1
  unfolding next_from
  next_from-IsPool answer zero i a v = v
  next_from-IsPool answer (suc n) i a v = elim (Option-cases (get_elem? a.bufs i)) [
    | inl e ↦ rw (e, next_from) v
    | inr (b, e) ↦ elim (Bool-cases (fits a b)) [
      | inl fit ↦ elim (Bool-cases b.busy) [
        | inl busy ↦ rw (e, next_from, fit, busy) (next_from-IsPool answer n (suc i) a v)
        | inr free ↦ rw (e, next_from, fit, free) v
      ]
      | inr stale ↦
          let v' =
            init_buffer-IsPool answer i (clear_buffer i a) (cleared i b a e)
              (clear_buffer-IsPool size_limit id i a v) in
          elim (Bool-cases (init_buffer size_limit answer i (clear_buffer i a)).0) [
            | inl made ↦ rw (e, next_from, stale, made) v'
            | inr failed ↦ rw (e, next_from, stale, failed) v'
          ]
    ]
  ]

  pub next_buffer-IsPool :
      (answer : Allocation) (a : App)
      → IsPool size_limit id a
      → IsPool size_limit id (next_buffer size_limit answer a).1
  unfolding next_buffer
  next_buffer-IsPool answer a v = next_from-IsPool answer num_bufs 0 a v
