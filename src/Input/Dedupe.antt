-- ===== src/Input/Dedupe.antt =====
-- Duplicate reports: one press that several seats report reaches the client once.
use webos_wayland.Base.{
  ℕ, zero, suc, ◌==◌, ◌+◌, ◌≤◌, ◌<◌, ◌^◌, ◌≡◌, ◌↔◌, refl, Bool, true, false, Option, none, some,
  List, [], ◌∷◌, get_elem?, arith, Bool-cases, inl, inr, if◌then◌else◌, sub32, u32, ap, sym, ◌∙◌,
  call_if_set,
}
use webos_wayland.Input.{InputSeat, Context}
use webos_wayland.Input.Events.{recent_duplicate, keyboard_key, pointer_button}

-- `recent_duplicate` holds exactly for the same value and state, at most 20 ms after the report
-- that it is compared with, also where the 32-bit clock went round in between.
pub recent_duplicate_iff :
    (time previous_time value previous_value state previous_state : ℕ) (have_previous : Bool)
    → time < 2 ^ 32
    → previous_time < 2 ^ 32
    → (recent_duplicate time previous_time value previous_value state previous_state have_previous
        ≡ true)
      ↔ ((have_previous ≡ true)
          × (value ≡ previous_value)
          × (state ≡ previous_state)
          × ((d : ℕ) × (d ≤ 20) × (time ≡ u32 (previous_time + d))))
unfolding recent_duplicate
recent_duplicate_iff time previous_time value previous_value state previous_state have_previous ht
      hp =
    (
      λ h. (
        ground arith,
        ground arith,
        ground arith,
        (sub32 time previous_time, ground arith, omega arith),
      ),
      λ r. ground arith,
    )

-- A key report: the slot, the time, the key and its state.
pub record Report : Type 0 where
  pub slot : ℕ
  pub time : ℕ
  pub key : ℕ
  pub state : ℕ

-- Whether a report repeats the last one kept; the slot plays no part.
abbrev pub is_repeat : Option Report → Report → Bool
is_repeat none r = false
is_repeat (some p) r = recent_duplicate r.time p.time r.key p.key r.state p.state true

-- The reports that do not repeat the last one kept before them.
pub unless_repeated : Option Report → List Report → List Report
unless_repeated last [] = []
unless_repeated last (r ∷ rs) =
    let kept = unless_repeated (some r) rs in
    let dropped = unless_repeated last rs in if is_repeat last r then dropped else r ∷ kept

-- The slot of the last report plays no part.
unless_repeated-slot :
    (p : Report) (rs : List Report)
    → unless_repeated (some (record p { slot = 0 })) rs ≡ unless_repeated (some p) rs
unfolding unless_repeated
unless_repeated-slot p [] = refl
unless_repeated-slot p (r ∷ rs) = rw (unless_repeated-slot p rs)

unless_repeated-drop :
    (last : Option Report) (r : Report) (rs : List Report)
    → is_repeat last r ≡ true
    → unless_repeated last (r ∷ rs) ≡ unless_repeated last rs
unfolding unless_repeated
unless_repeated-drop last r rs h = ground arith

unless_repeated-keep :
    (last : Option Report) (r : Report) (rs : List Report)
    → is_repeat last r ≡ false
    → unless_repeated last (r ∷ rs) ≡ r ∷ unless_repeated (some r) rs
unfolding unless_repeated
unless_repeated-keep last r rs h = ground arith

-- Two reports, one after the other, `n` times.
pub in_turn : ℕ → Report → Report → List Report
in_turn zero a b = []
in_turn (suc n) a b = a ∷ b ∷ in_turn n a b

other_key : (a b : Report) → (a.key == b.key) ≡ false → is_repeat (some a) b ≡ false
unfolding recent_duplicate
other_key a b h = ground arith

other_key_back : (a b : Report) → (a.key == b.key) ≡ false → is_repeat (some b) a ≡ false
unfolding recent_duplicate
other_key_back a b h = ground arith

-- Neither of two reports of different keys in turns repeats the one before it.
unless_repeated-in_turn :
    (n : ℕ) (a b : Report) (last : Option Report)
    → is_repeat last a ≡ false
    → (a.key == b.key) ≡ false
    → unless_repeated last (in_turn n a b) ≡ in_turn n a b
unfolding in_turn unless_repeated
unless_repeated-in_turn zero a b last fresh other = refl
unless_repeated-in_turn (suc n) a b last fresh other =
    unless_repeated-keep last a (b ∷ in_turn n a b) fresh
    ∙ ap (λ rs. a ∷ rs)
        (unless_repeated-keep (some a) b (in_turn n a b) (other_key a b other)
          ∙ ap (λ rs. b ∷ rs)
              (unless_repeated-in_turn n a b (some b) (other_key_back a b other) other))

-- what a client's callback makes of reports
pub deliver {ℓ} : {D : Type ℓ} → Option (D → ℕ → ℕ → D) → D → List Report → D
deliver f d [] = d
deliver f d (r ∷ rs) = deliver f (call_if_set f (λ g. g d r.key r.state) d) rs

module _ {D : Type 0} where
  pub keys : Context D → List Report → Context D
  keys c [] = c
  keys c (r ∷ rs) = keys (keyboard_key r.slot r.time r.key r.state c) rs

  -- the report that the context compares with
  abbrev pub last_key : Context D → Option Report
  last_key c =
      if c.have_last_key
      then some
          (record { slot = 0; time = c.last_key_time; key = c.last_key; state = c.last_key_state })
      else none

  keyboard_key-drop :
      (c : Context D) (r : Report)
      → is_repeat (last_key c) r ≡ true
      → keyboard_key r.slot r.time r.key r.state c ≡ c
  unfolding keyboard_key recent_duplicate
  keyboard_key-drop c r h = ground arith

  keyboard_key-keep :
      (c : Context D) (r : Report)
      → is_repeat (last_key c) r ≡ false
      → let c' = keyboard_key r.slot r.time r.key r.state c in
        (last_key c' ≡ some (record r { slot = 0 }))
        × (c'.client
            ≡ call_if_set c.callbacks.keyboard_key (λ g. g c.client r.key r.state) c.client)
        × (c'.callbacks ≡ c.callbacks)
  unfolding keyboard_key recent_duplicate
  keyboard_key-keep c r h = ground arith

  -- Whatever slots the reports come from, the client is called exactly for those that do not repeat the
  -- last one kept (the same key and state at most 20 ms after it), in order. A report is not compared
  -- with any before the last one kept.
  pub keys-deliver :
      (rs : List Report) (c : Context D)
      → (keys c rs).client
        ≡ deliver c.callbacks.keyboard_key c.client (unless_repeated (last_key c) rs)
  unfolding keys deliver unless_repeated
  keys-deliver [] c = refl
  keys-deliver (r ∷ rs) c = elim (Bool-cases (is_repeat (last_key c) r)) [
    | inl h ↦
        ap (λ c'. (keys c' rs).client) (keyboard_key-drop c r h)
        ∙ keys-deliver rs c
        ∙ ap (deliver c.callbacks.keyboard_key c.client)
            (sym (unless_repeated-drop (last_key c) r rs h))
    | inr h ↦
        let (last, client, callbacks) = keyboard_key-keep c r h in
        keys-deliver rs (keyboard_key r.slot r.time r.key r.state c)
        ∙ rw
            (
              unless_repeated-keep (last_key c) r rs h,
              last,
              client,
              callbacks,
              unless_repeated-slot r rs,
            )
            refl
  ]

  -- Two reports of different keys, told in turns as two seats tell them, all reach the client,
  -- however often and however close together, if the first does not repeat the last one kept.
  pub keys-in_turn :
      (n : ℕ) (a b : Report) (c : Context D)
      → is_repeat (last_key c) a ≡ false
      → (a.key == b.key) ≡ false
      → (keys c (in_turn n a b)).client ≡ deliver c.callbacks.keyboard_key c.client (in_turn n a b)
  keys-in_turn n a b c fresh other =
      keys-deliver (in_turn n a b) c
      ∙ ap (deliver c.callbacks.keyboard_key c.client)
          (unless_repeated-in_turn n a b (last_key c) fresh other)

  -- A key report that is not a duplicate of the last one, told again by any seat at most 20 ms
  -- later, changes nothing more.
  pub keyboard_key-mirror :
      (c : Context D) (i j time d key state : ℕ)
      → time < 2 ^ 32
      → d ≤ 20
      → recent_duplicate time c.last_key_time key c.last_key state c.last_key_state c.have_last_key
        ≡ false
      → keyboard_key j (u32 (time + d)) key state (keyboard_key i time key state c)
        ≡ keyboard_key i time key state c
  unfolding keyboard_key recent_duplicate
  keyboard_key-mirror c i j time d key state ht hd fresh = ground arith

  -- A button report that is not a duplicate of the last one, told again by any seat in the table at
  -- most 20 ms later, changes nothing more.
  pub pointer_button-mirror :
      (c : Context D) (i j time d button state : ℕ) {s t : InputSeat}
      → get_elem? c.seats i ≡ some s
      → get_elem? c.seats j ≡ some t
      → time < 2 ^ 32
      → d ≤ 20
      → recent_duplicate time c.last_button_time button c.last_button state c.last_button_state
          c.have_last_button
        ≡ false
      → pointer_button j (u32 (time + d)) button state (pointer_button i time button state c)
        ≡ pointer_button i time button state c
  unfolding pointer_button recent_duplicate
  pointer_button-mirror c i j time d button state hi hj ht hd fresh = ground arith
