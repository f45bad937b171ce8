-- ===== src/Input/Step.antt =====
-- Every event that can arrive keeps the invariant.
use webos_wayland.Base.{
  ℕ, ℤ, ◌-◌, ◌≡◌, refl, Bool, true, Option, none, some, get_elem?, str_eq, arith, Option-cases,
  Bool-cases, inl, inr, is_some, subst, String,
}
use webos_wayland.Wayland.{Headers, Proxy}
use webos_wayland.Input.{InputSeat, Context, Callbacks}
use webos_wayland.Input.Events.{
  pointer_enter, pointer_leave, pointer_motion, pointer_button, keyboard_enter, keyboard_leave,
  keyboard_key, has_pointer, has_keyboard,
}
use webos_wayland.Input.Registry.{
  blank, context_init, try_bind, global_remove, find_slot, is_free, is_named, bind_slot,
  bind_version,
}
use webos_wayland.Input.Invariant.{
  IsValid, put-IsValid, seat-IsSettled, counts_bounded, context_init-IsValid,
}
use webos_wayland.Input.Preserve.{
  ValidAt, clear_pointer_focus-ValidAt, clear_keyboard_focus-ValidAt, destroy_input_seat-ValidAt,
  blank-IsSettled,
}
use webos_wayland.Input.Slots.{find_slot-IsFirst}
use webos_wayland.Input.Capabilities.{seat_capabilities-ValidAt}
use webos_wayland.Input.Trace.{
  Event, enter, leave, motion, button, focus, unfocus, key, capabilities, global, removed, handle,
  CanArrive, Reach, here, next, is_bound,
}

module _ {D : Type 0} where
  pointer_enter-ValidAt :
      (wl : Headers) (i : ℕ) (sx sy : ℤ) (s : InputSeat) (c : Context D)
      → ValidAt i s c
      → is_some s.pointer ≡ true
      → IsValid (pointer_enter wl i sx sy c)
  unfolding pointer_enter
  pointer_enter-ValidAt wl i sx sy s c v p =
      put-IsValid c (pointer_enter wl i sx sy c) i s t v.valid v.at
        (ground (arith, seat-IsSettled i v.valid v.at)) (ground arith)
        (ground (arith, counts_bounded v.valid)) (ground arith)
    where
      t : InputSeat
      t = record s {
        pointer_x = wl.fixed_to_int sx;
        pointer_y = wl.fixed_to_int sy;
        pointer_focused = true;
      }

  pointer_motion-ValidAt :
      (wl : Headers) (i : ℕ) (sx sy : ℤ) (s : InputSeat) (c : Context D)
      → ValidAt i s c
      → IsValid (pointer_motion wl i sx sy c)
  unfolding pointer_motion
  pointer_motion-ValidAt wl i sx sy s c v =
      put-IsValid c (pointer_motion wl i sx sy c) i s t v.valid v.at
        (ground (arith, seat-IsSettled i v.valid v.at)) (ground arith) (ground arith) (ground arith)
    where
      t : InputSeat
      t = record s { pointer_x = wl.fixed_to_int sx; pointer_y = wl.fixed_to_int sy }

  keyboard_enter-ValidAt :
      (i : ℕ) (s : InputSeat) (c : Context D)
      → ValidAt i s c
      → is_some s.keyboard ≡ true
      → IsValid (keyboard_enter i c)
  unfolding keyboard_enter
  keyboard_enter-ValidAt i s c v k =
      put-IsValid c (keyboard_enter i c) i s (record s { keyboard_focused = true }) v.valid v.at
        (ground (arith, seat-IsSettled i v.valid v.at)) (ground arith) (ground arith)
        (ground (arith, counts_bounded v.valid))

  pointer_button-IsValid :
      (i time b state : ℕ) (c : Context D) → IsValid c → IsValid (pointer_button i time b state c)
  unfolding pointer_button
  pointer_button-IsValid i time b state c v = ground arith

  keyboard_key-IsValid :
      (i time k state : ℕ) (c : Context D) → IsValid c → IsValid (keyboard_key i time k state c)
  unfolding keyboard_key
  keyboard_key-IsValid i time k state c v = ground arith

  -- The slot that an event names.
  pub pointer_slot :
      (i : ℕ) (c : Context D)
      → IsValid c
      → has_pointer i c ≡ true
      → (s : InputSeat) × ValidAt i s c × (is_some s.pointer ≡ true)
  unfolding has_pointer
  pointer_slot i c v h = elim (Option-cases (get_elem? c.seats i)) [
    | inl e ↦ absurd (ground arith)
    | inr (s, e) ↦ (s, record { valid = v; at = e }, ground arith)
  ]

  pub keyboard_slot :
      (i : ℕ) (c : Context D)
      → IsValid c
      → has_keyboard i c ≡ true
      → (s : InputSeat) × ValidAt i s c × (is_some s.keyboard ≡ true)
  unfolding has_keyboard
  keyboard_slot i c v h = elim (Option-cases (get_elem? c.seats i)) [
    | inl e ↦ absurd (ground arith)
    | inr (s, e) ↦ (s, record { valid = v; at = e }, ground arith)
  ]

  pub bound_slot :
      (i : ℕ) (c : Context D)
      → IsValid c
      → is_bound i c ≡ true
      → (s : InputSeat) × ValidAt i s c × (is_some s.seat ≡ true)
  unfolding is_bound
  bound_slot i c v h = elim (Option-cases (get_elem? c.seats i)) [
    | inl e ↦ absurd (ground arith)
    | inr (s, e) ↦ (s, record { valid = v; at = e }, ground arith)
  ]

  pub found_slot :
      (test : InputSeat → Bool) (c : Context D) (i : ℕ)
      → IsValid c
      → find_slot test 0 c.seats ≡ some i
      → (s : InputSeat) × ValidAt i s c × (test s ≡ true)
  found_slot test c i v h =
      let r = find_slot-IsFirst test 0 c.seats i h in
      (
        r.found,
        record {
          valid = v;
          at = subst (λ n. get_elem? c.seats n ≡ some r.found) (sub_zero i) r.at;
        },
        r.passes,
      )
    where
      sub_zero : (n : ℕ) → n - 0 ≡ n
      sub_zero n = omega arith

  bind_slot-IsValid :
      (name i : ℕ) (bound : Option Proxy) (s : InputSeat) (c : Context D)
      → ValidAt i s c
      → is_free s ≡ true
      → IsValid (bind_slot name i bound c).1
  unfolding bind_slot
  bind_slot-IsValid name i none s c at free =
      put-IsValid c (bind_slot name i none c).1 i s blank at.valid at.at blank-IsSettled refl
        (ground (arith, seat-IsSettled i at.valid at.at))
        (ground (arith, seat-IsSettled i at.valid at.at))
  bind_slot-IsValid name i (some p) s c at free =
      put-IsValid c (bind_slot name i (some p) c).1 i s
        (record s { seat = some p; registry_name = name; index = c.seat_count }) at.valid at.at
        (ground (arith, seat-IsSettled i at.valid at.at)) (ground arith) (ground arith)
        (ground arith)

  try_bind-IsValid :
      (name : ℕ) (interface : String) (version : ℕ) (bind : ℕ → Option Proxy) (c : Context D)
      → IsValid c
      → IsValid (try_bind name interface version bind c).1
  unfolding try_bind
  try_bind-IsValid name interface version bind c v =
      elim (Bool-cases (str_eq interface "wl_seat")) [
        | inr other ↦ rw other v
        | inl seat ↦ rw seat (elim (Option-cases (find_slot is_free 0 c.seats)) [
          | inl full ↦ rw full v
          | inr (i, e) ↦
              let (s, at, free) = found_slot is_free c i v e in
              rw e (bind_slot-IsValid name i (bind (bind_version version)) s c at free)
        ])
      ]

  global_remove-IsValid :
      (wl : Headers) (name : ℕ) (c : Context D) → IsValid c → IsValid (global_remove wl name c)
  unfolding global_remove
  global_remove-IsValid wl name c v = elim (Option-cases (find_slot (is_named name) 0 c.seats)) [
    | inl e ↦ rw (e, global_remove) v
    | inr (i, e) ↦
        let (s, at, _) = found_slot (is_named name) c i v e in
        rw (e, global_remove) (destroy_input_seat-ValidAt wl i s c at).valid
  ]

  -- Every event that can arrive keeps the invariant.
  pub handle-IsValid :
      (wl : Headers) (e : Event) (c : Context D)
      → IsValid c
      → CanArrive e c
      → IsValid (handle wl e c)
  unfolding handle pointer_leave keyboard_leave
  handle-IsValid wl (enter i sx sy) c v h =
      let (s, at, p) = pointer_slot i c v h in pointer_enter-ValidAt wl i sx sy s c at p
  handle-IsValid wl (leave i) c v h =
      let (s, at, p) = pointer_slot i c v h in (clear_pointer_focus-ValidAt i s c at).valid
  handle-IsValid wl (motion i sx sy) c v h =
      let (s, at, p) = pointer_slot i c v h in pointer_motion-ValidAt wl i sx sy s c at
  handle-IsValid wl (button i time b state) c v h = pointer_button-IsValid i time b state c v
  handle-IsValid wl (focus i) c v h =
      let (s, at, k) = keyboard_slot i c v h in keyboard_enter-ValidAt i s c at k
  handle-IsValid wl (unfocus i) c v h =
      let (s, at, k) = keyboard_slot i c v h in (clear_keyboard_focus-ValidAt i s c at).valid
  handle-IsValid wl (key i time k state) c v h = keyboard_key-IsValid i time k state c v
  handle-IsValid wl (capabilities i caps p k) c v h =
      let (s, at, b) = bound_slot i c v h in
      (seat_capabilities-ValidAt wl i caps p k s c at b).valid
  handle-IsValid wl (global name interface version bind) c v h =
      try_bind-IsValid name interface version bind c v
  handle-IsValid wl (removed name) c v h = global_remove-IsValid wl name c v

  -- From `webos_input_context_init` on, whatever arrives, both focus counters are the numbers of
  -- slots that hold the focus, no slot holds a focus without its device, no device is kept without
  -- its seat, and the table keeps its eight slots.
  pub Reach-IsValid :
      (wl : Headers) (d : D) (f : Option (Callbacks D)) {c : Context D}
      → Reach wl (context_init d f) c
      → IsValid c
  Reach-IsValid wl d f here = context_init-IsValid d f
  Reach-IsValid wl d f (next {c} e r h) = handle-IsValid wl e c (Reach-IsValid wl d f r) h
