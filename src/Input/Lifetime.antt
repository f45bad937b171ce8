-- ===== src/Input/Lifetime.antt =====
-- From `webos_input_context_init` to `webos_input_context_destroy`: no proxy leaks.
use webos_wayland.Base.{ℕ, refl, Option, arith, Option-cases, Bool-cases, inl, inr, String, str_eq}
use webos_wayland.Wayland.{Headers, Proxy}
use webos_wayland.Input.{Context, Callbacks}
use webos_wayland.Input.Events.{
  pointer_leave, keyboard_leave, pointer_button, keyboard_key, seat_capabilities,
}
use webos_wayland.Input.Registry.{
  context_init, try_bind, global_remove, find_slot, is_free, is_named, bind_version,
}
use webos_wayland.Input.Invariant.{IsValid}
use webos_wayland.Input.Capabilities.{update_pointer-ValidAt}
use webos_wayland.Input.Ledger.{
  IsBalanced, clear_pointer_focus-IsBalanced, clear_keyboard_focus-IsBalanced,
}
use webos_wayland.Input.Balance.{
  destroy_input_seat-IsBalanced, update_pointer-IsBalanced, update_keyboard-IsBalanced,
  pointer_enter-IsBalanced, pointer_motion-IsBalanced, keyboard_enter-IsBalanced,
  bind_slot-IsBalanced,
}
use webos_wayland.Input.Trace.{
  Event, enter, leave, motion, button, focus, unfocus, key, capabilities, global, removed, handle,
  CanArrive, Reach, here, next,
}
use webos_wayland.Input.Step.{Reach-IsValid, found_slot, pointer_slot, keyboard_slot, bound_slot}

module _ {D : Type 0} where
  try_bind-IsBalanced :
      (id name : ℕ) (interface : String) (version : ℕ) (bind : ℕ → Option Proxy) (c : Context D)
      → IsValid c
      → IsBalanced id c
      → IsBalanced id (try_bind name interface version bind c).1
  unfolding try_bind
  try_bind-IsBalanced id name interface version bind c v b =
      elim (Bool-cases (str_eq interface "wl_seat")) [
        | inr other ↦ rw other b
        | inl seat ↦ rw seat (elim (Option-cases (find_slot is_free 0 c.seats)) [
          | inl full ↦ rw full b
          | inr (i, e) ↦
              let (s, at, free) = found_slot is_free c i v e in
              rw e (bind_slot-IsBalanced id name i (bind (bind_version version)) s c at free b)
        ])
      ]

  global_remove-IsBalanced :
      (wl : Headers) (id name : ℕ) (c : Context D)
      → IsValid c
      → IsBalanced id c
      → IsBalanced id (global_remove wl name c)
  unfolding global_remove
  global_remove-IsBalanced wl id name c v b =
      elim (Option-cases (find_slot (is_named name) 0 c.seats)) [
        | inl e ↦ rw (e, global_remove) b
        | inr (i, e) ↦
            let (s, at, _) = found_slot (is_named name) c i v e in
            rw (e, global_remove) (destroy_input_seat-IsBalanced wl id i s c at b)
      ]

  handle-IsBalanced :
      (wl : Headers) (id : ℕ) (e : Event) (c : Context D)
      → IsValid c
      → CanArrive e c
      → IsBalanced id c
      → IsBalanced id (handle wl e c)
  unfolding handle pointer_leave keyboard_leave pointer_button keyboard_key seat_capabilities
  handle-IsBalanced wl id (enter i sx sy) c v h b =
      let (s, at, p) = pointer_slot i c v h in pointer_enter-IsBalanced wl id i sx sy s c at b
  handle-IsBalanced wl id (leave i) c v h b =
      let (s, at, p) = pointer_slot i c v h in clear_pointer_focus-IsBalanced id i s c at b
  handle-IsBalanced wl id (motion i sx sy) c v h b =
      let (s, at, p) = pointer_slot i c v h in pointer_motion-IsBalanced wl id i sx sy s c at b
  handle-IsBalanced wl id (button i time n state) c v h b = ground arith
  handle-IsBalanced wl id (focus i) c v h b =
      let (s, at, k) = keyboard_slot i c v h in keyboard_enter-IsBalanced id i s c at b
  handle-IsBalanced wl id (unfocus i) c v h b =
      let (s, at, k) = keyboard_slot i c v h in clear_keyboard_focus-IsBalanced id i s c at b
  handle-IsBalanced wl id (key i time k state) c v h b = ground arith
  handle-IsBalanced wl id (capabilities i caps p k) c v h b =
      let (s, at, bound) = bound_slot i c v h in
      update_keyboard-IsBalanced wl id i caps k _ _
        (update_pointer-ValidAt wl i caps p s c at bound)
        (update_pointer-IsBalanced wl id i caps p s c at b)
  handle-IsBalanced wl id (global name interface version bind) c v h b =
      try_bind-IsBalanced id name interface version bind c v b
  handle-IsBalanced wl id (removed name) c v h b = global_remove-IsBalanced wl id name c v b

  pub Reach-IsBalanced :
      (wl : Headers) (d : D) (f : Option (Callbacks D)) (id : ℕ) {c : Context D}
      → Reach wl (context_init d f) c
      → IsBalanced id c
  unfolding context_init
  Reach-IsBalanced wl d f id here = refl
  Reach-IsBalanced wl d f id (next {c} e r h) =
      handle-IsBalanced wl id e c (Reach-IsValid wl d f r) h (Reach-IsBalanced wl d f id r)
