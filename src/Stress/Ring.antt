-- ===== src/Stress/Ring.antt =====
-- After its throttle, the stress client finds a free GPU timer.
use webos_wayland.Base.{
  ℕ, ◌≡◌, ◌<◌, ◌≤◌, ap, false, refl, ◌∙◌, true, not, Option, none, some, List, [], ◌∷◌, ◌++◌,
  length, arith, is_some, if-intro, if-cases,
}
use webos_wayland.Egl.{Floats}
use webos_wayland.Stress.Timers.{
  Reply, Driver, Call, Slot, Tally, Timers, poll_slot, poll_slots, poll_gpu_timers, begin_gpu_timer,
  take_timer, has_free, oldest_from, throttle_offscreen, free_slot, wait_for, waits_for, next64,
}
use webos_wayland.Stress.Search.{
  Among, has_free-poll_slots, has_free-available, is_some-take_slot, Among-oldest,
  oldest_from-finds, oldest_from-least,
}

module _ (double : Floats) where
  length-poll_slots :
      (warmup : double.F) (reply : ℕ → Reply) (ss : List (Slot double)) (t : Tally double)
      → length (poll_slots double warmup reply ss t).0 ≡ length ss
  unfolding poll_slots
  length-poll_slots warmup reply [] t = refl
  length-poll_slots warmup reply (s ∷ ss) t =
      omega (arith, length-poll_slots warmup reply ss (poll_slot double warmup reply s t).1)

  poll_gpu_timers-supported :
      (reply : Driver) (a : Timers double)
      → (poll_gpu_timers double reply a).supported ≡ a.supported
  unfolding poll_gpu_timers
  poll_gpu_timers-supported reply a = ground arith

  length-poll_gpu_timers :
      (reply : Driver) (a : Timers double)
      → length (poll_gpu_timers double reply a).slots ≡ length a.slots
  unfolding poll_gpu_timers
  length-poll_gpu_timers reply a =
      ground (arith, length-poll_slots a.warmup (reply a.asked) a.slots a.tally)

  poll_gpu_timers-available :
      (reply : Driver) (a : Timers double) (s : Slot double)
      → a.supported ≡ true
      → Among double s a.slots
      → (reply a.asked s.id).available ≡ true
      → has_free double (poll_gpu_timers double reply a).slots ≡ true
  unfolding poll_gpu_timers
  poll_gpu_timers-available reply a s sup m h =
      rw (poll_gpu_timers, sup)
        (has_free-available double a.warmup (reply a.asked) s a.slots a.tally m h)

  poll_gpu_timers-has_free :
      (reply : Driver) (a : Timers double)
      → has_free double a.slots ≡ true
      → has_free double (poll_gpu_timers double reply a).slots ≡ true
  unfolding poll_gpu_timers
  poll_gpu_timers-has_free reply a h =
      ground (arith, has_free-poll_slots double a.warmup (reply a.asked) a.slots a.tally h)

  -- What the driver does: a query whose result it was just made to wait for is available.
  abbrev pub IsBlocking : Driver → Type 0
  IsBlocking driver =
      (asked : List Call) (id : ℕ) → (driver (asked ++ (waits_for id ∷ [])) id).available ≡ true

  wait_for-has_free :
      (two : Driver) (o : Option (Slot double)) (a : Timers double)
      → a.supported ≡ true
      → is_some o ≡ true
      → IsBlocking two
      → ((s : Slot double) → o ≡ some s → Among double s a.slots)
      → has_free double (wait_for double two o a).slots ≡ true
  unfolding wait_for
  wait_for-has_free two none a sup h blocks k = ground arith
  wait_for-has_free two (some s) a sup h blocks k =
      poll_gpu_timers-available two
        (record a { asked = a.asked ++ (waits_for s.id ∷ []); waits = next64 a.waits }) s sup
        (k s refl) (blocks a.asked s.id)

  free_slot-has_free :
      (one two : Driver) (a : Timers double)
      → a.supported ≡ true
      → 0 < length a.slots
      → IsBlocking two
      → has_free double (free_slot double one two a).slots ≡ true
  unfolding free_slot
  free_slot-has_free one two a sup ne blocks =
      let b = poll_gpu_timers double one a in
      if-cases (λ (x : Timers double). has_free double x.slots ≡ true) (has_free double b.slots)
        (λ h. h)
        (λ h.
          wait_for-has_free two (oldest_from double none b.slots)
            (record b { ring_full = next64 b.ring_full; backpressure = next64 b.backpressure })
            (poll_gpu_timers-supported one a ∙ sup)
            (oldest_from-finds double b.slots h (omega (arith, ne, length-poll_gpu_timers one a)))
            blocks (Among-oldest double b.slots))

  wait_for-supported :
      (two : Driver) (o : Option (Slot double)) (a : Timers double)
      → (wait_for double two o a).supported ≡ a.supported
  unfolding wait_for
  wait_for-supported two none a = refl
  wait_for-supported two (some s) a =
      poll_gpu_timers-supported two
        (record a { asked = a.asked ++ (waits_for s.id ∷ []); waits = next64 a.waits })

  free_slot-supported :
      (one two : Driver) (a : Timers double) → (free_slot double one two a).supported ≡ a.supported
  unfolding free_slot
  free_slot-supported one two a =
      let b = poll_gpu_timers double one a in
      if-intro (λ (x : Timers double). x.supported ≡ a.supported) (has_free double b.slots)
        (poll_gpu_timers-supported one a)
        (wait_for-supported two (oldest_from double none b.slots)
            (record b { ring_full = next64 b.ring_full; backpressure = next64 b.backpressure })
          ∙ poll_gpu_timers-supported one a)

  begin_gpu_timer-is_some :
      (reply : Driver) (now : double.F) (a : Timers double)
      → a.supported ≡ true
      → has_free double a.slots ≡ true
      → is_some (begin_gpu_timer double reply now a).0 ≡ true
  unfolding begin_gpu_timer take_timer
  begin_gpu_timer-is_some reply now a sup h =
      let b = poll_gpu_timers double reply a in
      ground (
        arith,
        is_some-take_slot double now (next64 b.sequence) 0 b.slots
            (poll_gpu_timers-has_free reply a h),
      )

  poll_gpu_timers-asked :
      (driver : Driver) (a : Timers double) → (poll_gpu_timers double driver a).asked ≡ a.asked
  unfolding poll_gpu_timers
  poll_gpu_timers-asked driver a = ground arith

  -- What the throttle makes of the calls `before` and of the slots after its first poll: nothing
  -- more if one is free, and else it waits for a slot that began no later than any other.
  pub data WaitsForOldest (before after : List Call) (ss : List (Slot double)) : Type 0 where
    no_wait : has_free double ss ≡ true → after ≡ before → WaitsForOldest before after ss
    one_wait :
        (s : Slot double)
        → has_free double ss ≡ false
        → Among double s ss
        → ((t : Slot double) → Among double t ss → s.sequence ≤ t.sequence)
        → after ≡ before ++ (waits_for s.id ∷ [])
        → WaitsForOldest before after ss

  wait_for-asked :
      (two : Driver) (a b : Timers double)
      → b.asked ≡ a.asked
      → has_free double b.slots ≡ false
      → (o : Option (Slot double)) → oldest_from double none b.slots ≡ o
      → is_some o ≡ true
      → WaitsForOldest a.asked (wait_for double two o b).asked b.slots
  unfolding wait_for
  wait_for-asked two a b e full none f h = absurd (ground arith)
  wait_for-asked two a b e full (some s) f h =
      one_wait s full (Among-oldest double b.slots s f) (oldest_from-least double b.slots s full f)
        (poll_gpu_timers-asked two
            (record b { asked = b.asked ++ (waits_for s.id ∷ []); waits = next64 b.waits })
          ∙ ap (λ l. l ++ (waits_for s.id ∷ [])) e)

  free_slot-asked :
      (one two : Driver) (a : Timers double)
      → 0 < length a.slots
      → WaitsForOldest a.asked
          (free_slot double one two a).asked
          (poll_gpu_timers double one a).slots
  unfolding free_slot
  free_slot-asked one two a ne =
      let b = poll_gpu_timers double one a in
      let c = record b { ring_full = next64 b.ring_full; backpressure = next64 b.backpressure } in
      if-cases (λ (x : Timers double). WaitsForOldest a.asked x.asked b.slots)
        (has_free double b.slots) (λ h. no_wait h (poll_gpu_timers-asked one a))
        (λ h.
          wait_for-asked two a c (poll_gpu_timers-asked one a) h (oldest_from double none b.slots)
            refl
            (oldest_from-finds double b.slots h (omega (arith, ne, length-poll_gpu_timers one a))))

  -- Off the screen, if there is a slot, the throttle waits for the oldest query where its first poll
  -- leaves no slot free, and does not wait otherwise; and after it the frame gets a GPU timer, provided
  -- that a query which the driver was just made to wait for is available.
  pub begin_gpu_timer-throttle_offscreen :
      (one two three : Driver) (now : double.F) (a : Timers double)
      → a.supported ≡ true
      → a.offscreen ≡ true
      → 0 < length a.slots
      → IsBlocking two
      → WaitsForOldest a.asked
          (throttle_offscreen double one two a).asked
          (poll_gpu_timers double one a).slots
        × (is_some (begin_gpu_timer double three now (throttle_offscreen double one two a)).0
            ≡ true)
  unfolding throttle_offscreen
  begin_gpu_timer-throttle_offscreen one two three now a sup off ne blocks =
      let P = λ (x : Timers double).
        WaitsForOldest a.asked x.asked (poll_gpu_timers double one a).slots
        × (is_some (begin_gpu_timer double three now x).0 ≡ true) in
      if-cases P (not a.offscreen) (λ h. absurd (ground arith))
        (λ h.
          if-cases P a.supported
            (λ g. (
              free_slot-asked one two a ne,
              begin_gpu_timer-is_some three now (free_slot double one two a)
                  (free_slot-supported one two a ∙ sup)
                  (free_slot-has_free one two a sup ne blocks),
            ))
            (λ g. absurd (ground arith)))
