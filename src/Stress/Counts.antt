-- ===== src/Stress/Counts.antt =====
-- The stress client counts every GPU timer that it begins.
use webos_wayland.Base.{
  ℕ, ◌+◌, ◌%◌, ◌^◌, ◌≡◌, ◌≤◌, refl, subst, ℤ, Bool, ◌&&◌, pos, not, Option, none, some, List, [],
  ◌∷◌, ◌++◌, if◌then◌else◌, length, arith, Bool-cases, Option-cases, inl, inr, if-intro,
  some-injective, leb_ℤ,
}
use webos_wayland.Egl.{Floats}
use webos_wayland.Stress.Timers.{
  Reply, Driver, init_gpu_timer, no_timers, blank_slots, Slot, Tally, Timers, collect, poll_slot,
  poll_slots, poll_gpu_timers, take_slot, take_timer, max_samples, begin_gpu_timer, has_free,
  oldest_from, throttle_offscreen, free_slot, wait_for, waits_for, next64, end_gpu_timer,
}

length-snoc : {A : Type 0} (l : List A) (x : A) → length (l ++ (x ∷ [])) ≡ length l + 1
length-snoc [] x = omega arith
length-snoc (y ∷ l) x = omega (arith, length-snoc l x)

module _ (double : Floats) where
  -- how many queries are under way
  unfoldable pub busy : List (Slot double) → ℕ
  busy [] = 0
  busy (s ∷ ss) = (if s.active then 1 else 0) + busy ss

  -- Each query that was begun is completed or under way, as far as the counters tell, and the samples
  -- fit into their list.
  pub record IsCounted (a : Timers double) : Type 0 where
    pub begun : (a.tally.completed + busy a.slots) % 2 ^ 64 ≡ a.sequence
    pub fits : length a.tally.samples ≤ max_samples

  collect-completed :
      (warmup : double.F) (r : Reply) (s : Slot double) (t : Tally double)
      → (collect double warmup r s t).completed ≡ next64 t.completed
  unfolding collect
  collect-completed warmup r s t = ground arith

  collect-fits :
      (warmup : double.F) (r : Reply) (s : Slot double) (t : Tally double)
      → length t.samples ≤ max_samples
      → length (collect double warmup r s t).samples ≤ max_samples
  unfolding collect
  collect-fits warmup r s t h = ground (
    arith,
    length-snoc t.samples
        (double.div (double.of_int (pos r.nanoseconds)) (double.decimal (pos 10000000) 1)),
  )

  poll_slot-begun :
      (warmup : double.F) (reply : ℕ → Reply) (s : Slot double) (t : Tally double) (n : ℕ)
      → ((poll_slot double warmup reply s t).1.completed
            + (busy ((poll_slot double warmup reply s t).0 ∷ []) + n))
          % 2 ^ 64
        ≡ (t.completed + (busy (s ∷ []) + n)) % 2 ^ 64
  unfolding poll_slot busy
  poll_slot-begun warmup reply s t n = ground (arith, collect-completed warmup (reply s.id) s t)

  poll_slot-fits :
      (warmup : double.F) (reply : ℕ → Reply) (s : Slot double) (t : Tally double)
      → length t.samples ≤ max_samples
      → length (poll_slot double warmup reply s t).1.samples ≤ max_samples
  unfolding poll_slot
  poll_slot-fits warmup reply s t h = ground (arith, collect-fits warmup (reply s.id) s t h)

  poll_slots-begun :
      (warmup : double.F) (reply : ℕ → Reply) (ss : List (Slot double)) (t : Tally double) (n : ℕ)
      → ((poll_slots double warmup reply ss t).1.completed
            + (n + busy (poll_slots double warmup reply ss t).0))
          % 2 ^ 64
        ≡ (t.completed + (n + busy ss)) % 2 ^ 64
  unfolding poll_slots busy
  poll_slots-begun warmup reply [] t n = refl
  poll_slots-begun warmup reply (s ∷ ss) t n =
      let (s', t') = poll_slot double warmup reply s t in
      omega (
        arith,
        poll_slots-begun warmup reply ss t' (n + busy (s' ∷ [])),
        poll_slot-begun warmup reply s t (n + busy ss),
      )

  poll_slots-fits :
      (warmup : double.F) (reply : ℕ → Reply) (ss : List (Slot double)) (t : Tally double)
      → length t.samples ≤ max_samples
      → length (poll_slots double warmup reply ss t).1.samples ≤ max_samples
  unfolding poll_slots
  poll_slots-fits warmup reply [] t h = h
  poll_slots-fits warmup reply (s ∷ ss) t h =
      poll_slots-fits warmup reply ss (poll_slot double warmup reply s t).1
        (poll_slot-fits warmup reply s t h)

  take_slot-busy :
      (now : double.F) (sequence i : ℕ) (ss : List (Slot double)) (x : ℕ × ℕ × List (Slot double))
      → take_slot double now sequence i ss ≡ some x
      → busy x.2 ≡ busy ss + 1
  unfolding take_slot busy
  take_slot-busy now sequence i [] x h = ground arith
  take_slot-busy now sequence i (s ∷ ss) x h = elim (Bool-cases s.active) [
    | inl e ↦ elim (Option-cases (take_slot double now sequence (i + 1) ss)) [
      | inl f ↦ let q = rw (take_slot, e, f) at h in ground arith
      | inr (y, f) ↦
          let q = rw (take_slot, e, f) at h in
          subst (λ z. busy z.2 ≡ busy (s ∷ ss) + 1) (some-injective _ _ q)
            (omega (arith, take_slot-busy now sequence (i + 1) ss y f))
    ]
    | inr e ↦
        let q = rw (take_slot, e) at h in
        subst (λ z. busy z.2 ≡ busy (s ∷ ss) + 1) (some-injective _ _ q) (ground arith)
  ]

  pub poll_gpu_timers-IsCounted :
      (reply : Driver) (a : Timers double)
      → IsCounted a
      → IsCounted (poll_gpu_timers double reply a)
  unfolding poll_gpu_timers
  poll_gpu_timers-IsCounted reply a c =
      if-intro IsCounted a.supported
        (record {
          begun =
              omega (arith, poll_slots-begun a.warmup (reply a.asked) a.slots a.tally 0, c.begun);
          fits = poll_slots-fits a.warmup (reply a.asked) a.slots a.tally c.fits;
        })
        c

  wait_for-IsCounted :
      (reply : Driver) (o : Option (Slot double)) (a : Timers double)
      → IsCounted a
      → IsCounted (wait_for double reply o a)
  unfolding wait_for
  wait_for-IsCounted reply none a c = c
  wait_for-IsCounted reply (some s) a c =
      poll_gpu_timers-IsCounted reply
        (record a { asked = a.asked ++ (waits_for s.id ∷ []); waits = next64 a.waits })
        (record { begun = c.begun; fits = c.fits })

  free_slot-IsCounted :
      (one two : Driver) (a : Timers double) → IsCounted a → IsCounted (free_slot double one two a)
  unfolding free_slot
  free_slot-IsCounted one two a c =
      let b = poll_gpu_timers double one a in
      let d = poll_gpu_timers-IsCounted one a c in
      if-intro IsCounted (has_free double b.slots) d (
        wait_for-IsCounted two (oldest_from double none b.slots)
          (record b { ring_full = next64 b.ring_full; backpressure = next64 b.backpressure })
          (record { begun = d.begun; fits = d.fits }))

  pub throttle_offscreen-IsCounted :
      (one two : Driver) (a : Timers double)
      → IsCounted a
      → IsCounted (throttle_offscreen double one two a)
  unfolding throttle_offscreen
  throttle_offscreen-IsCounted one two a c = if-intro IsCounted (not a.offscreen) c (
      if-intro IsCounted a.supported (free_slot-IsCounted one two a c) (
        if-intro IsCounted (leb_ℤ a.batch a.since_sync) (record { begun = c.begun; fits = c.fits })
          c))

  begun-IsCounted :
      (now : double.F) (a : Timers double) → IsCounted a → IsCounted (take_timer double now a).1
  unfolding take_timer
  begun-IsCounted now a c =
      elim (Option-cases (take_slot double now (next64 a.sequence) 0 a.slots)) [
        | inl e ↦ rw (take_timer, e) (record { begun = c.begun; fits = c.fits })
        | inr (x, e) ↦
            rw (take_timer, e)
              (record {
                begun =
                    omega (arith, c.begun, take_slot-busy now (next64 a.sequence) 0 a.slots x e);
                fits = c.fits;
              })
      ]

  pub begin_gpu_timer-IsCounted :
      (reply : Driver) (now : double.F) (a : Timers double)
      → IsCounted a
      → IsCounted (begin_gpu_timer double reply now a).1
  unfolding begin_gpu_timer
  begin_gpu_timer-IsCounted reply now a c =
      let b = poll_gpu_timers double reply a in
      let d = poll_gpu_timers-IsCounted reply a c in
      let P = λ (x : Option ℕ × Timers double). IsCounted x.1 in
      if-intro P a.supported (begun-IsCounted now b d) c

  pub end_gpu_timer-IsCounted :
      (slot : Option ℕ) (a : Timers double) → IsCounted a → IsCounted (end_gpu_timer double slot a)
  unfolding end_gpu_timer
  end_gpu_timer-IsCounted none a c = c
  end_gpu_timer-IsCounted (some slot) a c = record { begun = c.begun; fits = c.fits }

  busy-blank_slots : (ids : List ℕ) → busy (blank_slots double ids) ≡ 0
  unfolding blank_slots busy
  busy-blank_slots [] = refl
  busy-blank_slots (n ∷ ns) = omega (arith, busy-blank_slots ns)

  -- Nothing is begun at the start.
  pub init_gpu_timer-IsCounted :
      (enabled present : Bool) (ids : Option (List ℕ)) (offscreen : Bool) (warmup : double.F)
      (batch : ℤ)
      → IsCounted
          (init_gpu_timer double enabled present ids (no_timers double offscreen warmup batch))
  unfolding init_gpu_timer no_timers busy
  init_gpu_timer-IsCounted enabled present none offscreen warmup batch = record {
    begun = refl;
    fits = omega arith;
  }
  init_gpu_timer-IsCounted enabled present (some ids) offscreen warmup batch =
      if-intro IsCounted (enabled && present)
        (record { begun = omega (arith, busy-blank_slots ids); fits = omega arith })
        (record { begun = refl; fits = omega arith })
