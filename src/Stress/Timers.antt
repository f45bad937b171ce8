-- ===== src/Stress/Timers.antt =====
-- native/wayland_egl_stress.c, lines 817 to 895: the ring of GPU timer queries.
use webos_wayland.Base.{
  ℕ, ◌+◌, ◌%◌, ◌^◌, ℤ, pos, Bool, true, false, not, ◌&&◌, ◌||◌, Option, none, some, List, [], ◌∷◌,
  ◌++◌, if◌then◌else◌, ltb, leb_ℤ, length,
}
use webos_wayland.Egl.{Floats}

-- STRESS_MAX_SAMPLES
abbrev pub max_samples : ℕ
max_samples = 8192

-- an `unsigned long long` one higher
abbrev pub next64 : ℕ → ℕ
next64 n = (n + 1) % 2 ^ 64

-- What the driver answers about a query: GL_QUERY_RESULT_AVAILABLE_EXT, GL_QUERY_RESULT_EXT and
-- GL_GPU_DISJOINT_EXT.
pub record Reply : Type 0 where
  pub available : Bool
  pub nanoseconds : ℕ
  pub disjoint : Bool

-- what is asked of OpenGL ES; `waits_for` blocks until there is a result
pub data Call : Type 0 where
  begins : ℕ → Call
  ends : Call
  waits_for : ℕ → Call
  finishes : Call

-- What a driver answers at some time about each query, after all that was asked of it so far.
abbrev pub Driver : Type 0
Driver = List Call → ℕ → Reply

-- `struct stress_gpu_timer_slot`
pub record Slot (double : Floats) : Type 0 where
  pub id : ℕ
  pub active : Bool
  pub started : double.F
  pub sequence : ℕ

-- what a poll counts
pub record Tally (double : Floats) : Type 0 where
  pub samples : List double.F
  pub completed : ℕ
  pub discarded : ℕ

-- The fields of `struct app` that the timers use. `offscreen` says that the pacing is
-- STRESS_PACING_OFFSCREEN or STRESS_PACING_PBUFFER.
pub record Timers (double : Floats) : Type 0 where
  pub supported : Bool
  pub offscreen : Bool
  pub slots : List (Slot double)
  pub warmup : double.F
  pub tally : Tally double
  pub sequence : ℕ
  pub ring_full : ℕ
  pub waits : ℕ
  pub backpressure : ℕ
  pub finish_count : ℕ
  pub since_sync : ℤ
  pub batch : ℤ
  pub asked : List Call

module _ (double : Floats) where
  open double use {decimal, of_int, div, lt}

  -- `calloc` and line 804
  unfoldable pub blank_slots : List ℕ → List (Slot double)
  blank_slots [] = []
  blank_slots (n ∷ ns) =
      record { id = n; active = false; started = decimal (pos 0) 1; sequence = 0 } ∷ blank_slots ns

  -- lines 827 to 835: an available result is counted
  unfoldable pub collect : double.F → Reply → Slot double → Tally double → Tally double
  collect warmup r s t =
      let t' = record t { completed = next64 t.completed } in
      if not r.disjoint && not (lt s.started warmup) && ltb (length t.samples) max_samples
      then record t' {
        samples = t.samples ++ (div (of_int (pos r.nanoseconds)) (decimal (pos 10000000) 1) ∷ []);
      }
      else if r.disjoint
      then record t' { discarded = next64 t.discarded }
      else t'

  -- a round of the loop of `poll_gpu_timers`
  unfoldable pub poll_slot :
      double.F → (ℕ → Reply) → Slot double → Tally double → Slot double × Tally double
  unfolding collect
  poll_slot warmup reply s t =
      if s.active && (reply s.id).available
      then (record s { active = false }, collect warmup (reply s.id) s t)
      else (s, t)

  unfoldable pub poll_slots :
      double.F → (ℕ → Reply) → List (Slot double) → Tally double → List (Slot double) × Tally double
  unfolding poll_slot
  poll_slots warmup reply [] t = ([], t)
  poll_slots warmup reply (s ∷ ss) t =
      let (s', t') = poll_slot warmup reply s t in
      let (ss', t'') = poll_slots warmup reply ss t' in (s' ∷ ss', t'')

  -- `poll_gpu_timers`
  unfoldable pub poll_gpu_timers : Driver → Timers double → Timers double
  unfolding poll_slots
  poll_gpu_timers driver a =
      if a.supported
      then (let (slots, tally) = poll_slots a.warmup (driver a.asked) a.slots a.tally in
          record a { slots = slots; tally = tally })
      else a

  -- the loop of `begin_gpu_timer`: the number of the slot, its query and the slots after it
  unfoldable pub take_slot :
      double.F → ℕ → ℕ → List (Slot double) → Option (ℕ × ℕ × List (Slot double))
  take_slot now sequence i [] = none
  take_slot now sequence i (s ∷ ss) =
      let rest = take_slot now sequence (i + 1) ss in
      if s.active
      then elim rest [ none ↦ none | some x ↦ some (x.0, x.1, s ∷ x.2) ]
      else some (i, s.id, record s { active = true; started = now; sequence = sequence } ∷ ss)

  -- lines 843 to 853, after the poll
  unfoldable pub take_timer : double.F → Timers double → Option ℕ × Timers double
  unfolding take_slot
  take_timer now a = elim (take_slot now (next64 a.sequence) 0 a.slots) [
    | none ↦ (none, record a { ring_full = next64 a.ring_full })
    | some x ↦ (
      some x.0,
      record a { slots = x.2; sequence = next64 a.sequence; asked = a.asked ++ (begins x.1 ∷ []) },
    )
  ]

  -- `begin_gpu_timer`: `none` for -1
  unfoldable pub begin_gpu_timer : Driver → double.F → Timers double → Option ℕ × Timers double
  unfolding poll_gpu_timers take_timer
  begin_gpu_timer reply now a =
      if a.supported then take_timer now (poll_gpu_timers reply a) else (none, a)

  -- `end_gpu_timer`
  unfoldable pub end_gpu_timer : Option ℕ → Timers double → Timers double
  end_gpu_timer none a = a
  end_gpu_timer (some slot) a = record a { asked = a.asked ++ (ends ∷ []) }

  -- lines 864 to 870
  unfoldable pub has_free : List (Slot double) → Bool
  has_free [] = false
  has_free (s ∷ ss) = not s.active || has_free ss

  -- lines 876 to 879, on an active slot
  abbrev pub older : Slot double → Option (Slot double) → Option (Slot double)
  older s none = some s
  older s (some b) = if ltb s.sequence b.sequence then some s else some b

  -- the loop of lines 875 to 880, from the `oldest` so far
  unfoldable pub oldest_from : Option (Slot double) → List (Slot double) → Option (Slot double)
  oldest_from best [] = best
  oldest_from best (s ∷ ss) = oldest_from (if s.active then older s best else best) ss

  -- lines 882 to 886: the blocking query, and a poll of a driver that knows of it
  unfoldable pub wait_for : Driver → Option (Slot double) → Timers double → Timers double
  wait_for reply none a = a
  wait_for reply (some s) a =
      poll_gpu_timers reply
        (record a { asked = a.asked ++ (waits_for s.id ∷ []); waits = next64 a.waits })

  -- lines 863 to 888
  unfoldable pub free_slot : Driver → Driver → Timers double → Timers double
  unfolding poll_gpu_timers has_free oldest_from wait_for
  free_slot first second a =
      let b = poll_gpu_timers first a in
      if has_free b.slots
      then b
      else wait_for second (oldest_from none b.slots)
          (record b { ring_full = next64 b.ring_full; backpressure = next64 b.backpressure })

  -- `throttle_offscreen`, with what the driver answers to its two polls
  unfoldable pub throttle_offscreen : Driver → Driver → Timers double → Timers double
  unfolding free_slot
  throttle_offscreen first second a =
      if not a.offscreen
      then a
      else if a.supported
      then free_slot first second a
      else if leb_ℤ a.batch a.since_sync
      then record a {
        asked = a.asked ++ (finishes ∷ []);
        finish_count = next64 a.finish_count;
        backpressure = next64 a.backpressure;
        since_sync = pos 0;
      }
      else a

  -- `init_gpu_timer`. `enabled` says that STRESS_GPU_TIMER is not "off", `present` that the extension
  -- and its functions are there, `ids` is what `glGenQueriesEXT` gives for the slots, if the two
  -- allocations succeed.
  unfoldable pub init_gpu_timer : Bool → Bool → Option (List ℕ) → Timers double → Timers double
  init_gpu_timer enabled present ids a = elim ids [
    | none ↦ a
    | some names ↦
        if enabled && present then record a { supported = true; slots = blank_slots names } else a
  ]

  -- The timers of the app after `memset`, with what `configure_benchmark` sets.
  unfoldable pub no_timers : Bool → double.F → ℤ → Timers double
  no_timers offscreen warmup batch = record {
    supported = false;
    offscreen = offscreen;
    slots = [];
    warmup = warmup;
    tally = record { samples = []; completed = 0; discarded = 0 };
    sequence = 0;
    ring_full = 0;
    waits = 0;
    backpressure = 0;
    finish_count = 0;
    since_sync = pos 0;
    batch = batch;
    asked = [];
  }

  -- `glFinish`, and a poll
  abbrev pub finish_and_poll : Driver → Timers double → Timers double
  finish_and_poll reply a =
      poll_gpu_timers reply
        (record a { asked = a.asked ++ (finishes ∷ []); finish_count = next64 a.finish_count })

  -- the loop of lines 1959 to 1963
  unfoldable pub drain_rounds : List Driver → Timers double → Timers double
  unfolding poll_gpu_timers
  drain_rounds [] a = a
  drain_rounds (r ∷ rs) a = if a.supported then drain_rounds rs (finish_and_poll r a) else a

  -- lines 1956 to 1963 of `main`, with what the driver answers to the five polls
  unfoldable pub drain : Driver → Driver → Driver → Driver → Driver → Timers double → Timers double
  unfolding drain_rounds
  drain first second third fourth fifth a =
      drain_rounds (second ∷ third ∷ fourth ∷ fifth ∷ []) (finish_and_poll first a)
