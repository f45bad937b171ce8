-- ===== src/Input/Destroy.antt =====
-- `webos_input_context_destroy`: the loop over the slots empties the table.
use webos_wayland.Base.{
  ℕ, zero, suc, ◌+◌, ◌<◌, ◌≡◌, refl, Option, none, some, List, [], ◌∷◌, get_elem?, total, arith,
  Option-cases, Bool-cases, inl, inr, is_some, All, sym, ◌∙◌, lt_of_get_elem?,
}
use webos_wayland.Wayland.{Headers}
use webos_wayland.Input.{InputSeat, Context, Callbacks, max_seats}
use webos_wayland.Input.Registry.{
  context_init, destroy_input_seat, destroy_if_bound, destroy_from, context_destroy,
}
use webos_wayland.Input.Invariant.{IsSettled, IsValid}
use webos_wayland.Input.Preserve.{ValidAt, destroy_input_seat-ValidAt}
use webos_wayland.Input.Ledger.{made, held, given_up, IsBalanced}
use webos_wayland.Input.Balance.{destroy_input_seat-IsBalanced}
use webos_wayland.Input.Isolation.{destroy_input_seat-other}
use webos_wayland.Input.Trace.{Reach}
use webos_wayland.Input.Step.{Reach-IsValid}
use webos_wayland.Input.Lifetime.{Reach-IsBalanced}
use native.Mathlib.Decide.{ℕ_discrete}
use native.Mathlib.Nat.{zero-add, suc-add, add-suc}

-- a slot with no proxy
abbrev pub IsEmpty : InputSeat → Type 0
IsEmpty s = (s.seat ≡ none) × (s.pointer ≡ none) × (s.keyboard ≡ none)

total-held : (id : ℕ) (ss : List InputSeat) → All IsEmpty ss → total (held id) ss ≡ 0
total-held id [] h = refl
total-held id (s ∷ ss) h = ground (arith, total-held id ss h.1)

-- A settled slot with no seat is empty.
All-IsEmpty :
    (ss : List InputSeat)
    → All IsSettled ss
    → ((m : ℕ) (s : InputSeat) → get_elem? ss m ≡ some s → s.seat ≡ none)
    → All IsEmpty ss
All-IsEmpty [] st h = tt
All-IsEmpty (s ∷ ss) st h = (
  let e : s.seat ≡ none = h 0 s refl in (e, ground (arith, st.0), ground (arith, st.0)),
  All-IsEmpty ss st.1 (λ m t at. h (suc m) t at),
)

module _ {D : Type 0} where
  -- The loop has passed the slots below `i`.
  record Passed (id i : ℕ) (c : Context D) : Type 0 where
    valid : IsValid c
    balanced : IsBalanced id c
    cleared : (m : ℕ) (s : InputSeat) → m < i → get_elem? c.seats m ≡ some s → s.seat ≡ none

  cleared_step :
      (wl : Headers) (i : ℕ) (s : InputSeat) (c : Context D)
      → ValidAt i s c
      → ((m : ℕ) (t : InputSeat) → m < i → get_elem? c.seats m ≡ some t → t.seat ≡ none)
      → (m : ℕ) (t : InputSeat) → m < suc i
      → get_elem? (destroy_input_seat wl i c).seats m ≡ some t
      → t.seat ≡ none
  cleared_step wl i s c v old m t lt at = elim (ℕ_discrete i m) [
    | yes e ↦ ground (arith, (destroy_input_seat-ValidAt wl i s c v).at)
    | no ne ↦ old m t (omega (arith, ne)) (sym (destroy_input_seat-other i m ne wl c) ∙ at)
  ]

  kept_step :
      (i : ℕ) (c : Context D)
      → ((s : InputSeat) → get_elem? c.seats i ≡ some s → s.seat ≡ none)
      → ((m : ℕ) (t : InputSeat) → m < i → get_elem? c.seats m ≡ some t → t.seat ≡ none)
      → (m : ℕ) (t : InputSeat) → m < suc i
      → get_elem? c.seats m ≡ some t
      → t.seat ≡ none
  kept_step i c here old m t lt at = elim (ℕ_discrete i m) [
    | yes e ↦ here t (rw e at)
    | no ne ↦ old m t (omega (arith, ne)) at
  ]

  destroy_if_bound-Passed :
      (wl : Headers) (id i : ℕ) (c : Context D)
      → Passed id i c
      → Passed id (suc i) (destroy_if_bound wl i c)
  unfolding destroy_if_bound
  destroy_if_bound-Passed wl id i c p = elim (Option-cases (get_elem? c.seats i)) [
    | inl e ↦
        rw (e, destroy_if_bound)
          (record {
            valid = p.valid;
            balanced = p.balanced;
            cleared = kept_step i c (λ s at. absurd (ground arith)) p.cleared;
          })
    | inr (s, e) ↦
        let v : ValidAt i s c = record { valid = p.valid; at = e } in
        elim (Bool-cases (is_some s.seat)) [
          | inl bound ↦
              rw (e, destroy_if_bound, bound)
                (record {
                  valid = (destroy_input_seat-ValidAt wl i s c v).valid;
                  balanced = destroy_input_seat-IsBalanced wl id i s c v p.balanced;
                  cleared = cleared_step wl i s c v p.cleared;
                })
          | inr free ↦
              rw (e, destroy_if_bound, free)
                (record {
                  valid = p.valid;
                  balanced = p.balanced;
                  cleared = kept_step i c (λ t at. ground arith) p.cleared;
                })
        ]
  ]

  destroy_from-Passed :
      (wl : Headers) (id n i : ℕ) (c : Context D)
      → Passed id i c
      → Passed id (n + i) (destroy_from wl n i c)
  unfolding destroy_from
  destroy_from-Passed wl id zero i c p = rw zero-add p
  destroy_from-Passed wl id (suc n) i c p = rw suc-add (
      rw (← add-suc) (
        destroy_from-Passed wl id n (suc i) (destroy_if_bound wl i c)
          (destroy_if_bound-Passed wl id i c p)))

  -- After any sequence of events, `webos_input_context_destroy` leaves no proxy in any slot, and
  -- every proxy has been given up exactly as often as it was made: nothing leaks, nothing is
  -- destroyed twice.
  pub context_destroy-releases_seats :
      (wl : Headers) (d : D) (f : Option (Callbacks D)) {c : Context D}
      → Reach wl (context_init d f) c
      → (id : ℕ)
      → All IsEmpty (context_destroy wl c).seats
        × (total (made id) (context_destroy wl c).sent
            ≡ total (given_up id) (context_destroy wl c).sent)
  unfolding context_destroy
  context_destroy-releases_seats wl d f {c} r id =
      let start : Passed id 0 c = record {
        valid = Reach-IsValid wl d f r;
        balanced = Reach-IsBalanced wl d f id r;
        cleared = λ m s lt at. absurd (omega arith);
      } in
      let p = destroy_from-Passed wl id max_seats 0 c start in
      let empty = All-IsEmpty (context_destroy wl c).seats p.valid.settled (λ m s at.
        p.cleared m s
          (omega (arith, p.valid.slots, lt_of_get_elem? (context_destroy wl c).seats m s at)) at) in
      (empty, omega (arith, p.balanced, total-held id (context_destroy wl c).seats empty))
