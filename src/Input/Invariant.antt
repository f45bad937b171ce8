-- ===== src/Input/Invariant.antt =====
-- What holds of an input context between two events: the counters are exact.
use webos_wayland.Base.{
  ℕ, ◌+◌, ◌≤◌, ◌≡◌, refl, Bool, true, Option, some, if◌then◌else◌, is_some, length, get_elem?, set,
  total, All, length-set, total-set, total-le, le-total, All-set, All-get_elem?, All-replicate,
  arith, ap, ◌∙◌,
}
use webos_wayland.Input.{Callbacks, InputSeat, Context, max_seats}
use webos_wayland.Input.Registry.{blank, context_init}

abbrev pub one_if : Bool → ℕ
one_if b = if b then 1 else 0

abbrev pub pointer_focused : InputSeat → ℕ
pointer_focused s = one_if s.pointer_focused

abbrev pub keyboard_focused : InputSeat → ℕ
keyboard_focused s = one_if s.keyboard_focused

-- A focus is held through a proxy, and a proxy through a bound seat.
pub record IsSettled (s : InputSeat) : Type 0 where
  pub pointer_held : s.pointer_focused ≡ true → is_some s.pointer ≡ true
  pub keyboard_held : s.keyboard_focused ≡ true → is_some s.keyboard ≡ true
  pub pointer_bound : is_some s.pointer ≡ true → is_some s.seat ≡ true
  pub keyboard_bound : is_some s.keyboard ≡ true → is_some s.seat ≡ true

module _ {D : Type 0} where
  pub record IsValid (c : Context D) : Type 0 where
    pub slots : length c.seats ≡ max_seats
    pub pointer_counted : c.pointer_focus_count ≡ total pointer_focused c.seats
    pub keyboard_counted : c.keyboard_focus_count ≡ total keyboard_focused c.seats
    pub settled : All IsSettled c.seats

  -- No counter passes the number of slots, so none wraps.
  pub counts_bounded :
      {c : Context D}
      → IsValid c
      → (c.pointer_focus_count ≤ max_seats) × (c.keyboard_focus_count ≤ max_seats)
  counts_bounded {c} v = omega (
    arith,
    v.slots,
    v.pointer_counted,
    v.keyboard_counted,
    total-le pointer_focused 1 (λ s. at_most_one s.pointer_focused) c.seats,
    total-le keyboard_focused 1 (λ s. at_most_one s.keyboard_focused) c.seats,
  )
    where
      at_most_one : (b : Bool) → one_if b ≤ 1
      at_most_one b = ground arith

  -- A write to one slot keeps the invariant if the counters follow it.
  pub put-IsValid :
      (c c' : Context D) (i : ℕ) (s t : InputSeat)
      → IsValid c
      → get_elem? c.seats i ≡ some s
      → IsSettled t
      → c'.seats ≡ set c.seats i t
      → c'.pointer_focus_count + pointer_focused s ≡ c.pointer_focus_count + pointer_focused t
      → c'.keyboard_focus_count + keyboard_focused s ≡ c.keyboard_focus_count + keyboard_focused t
      → IsValid c'
  put-IsValid c c' i s t v at st e p k = record {
    slots = ap length e ∙ length-set c.seats i t ∙ v.slots;
    pointer_counted = omega (
      arith,
      ap (total pointer_focused) e,
      total-set pointer_focused c.seats i s t at,
      v.pointer_counted,
      p,
    );
    keyboard_counted = omega (
      arith,
      ap (total keyboard_focused) e,
      total-set keyboard_focused c.seats i s t at,
      v.keyboard_counted,
      k,
    );
    settled = rw e (All-set IsSettled c.seats i t v.settled st);
  }

  pub seat-IsSettled :
      {c : Context D} (i : ℕ) {s : InputSeat}
      → IsValid c
      → get_elem? c.seats i ≡ some s
      → IsSettled s
  seat-IsSettled {c} i v at = All-get_elem? IsSettled c.seats i v.settled at

  -- A focused slot is counted.
  pub focused-counted :
      {c : Context D} (i : ℕ) {s : InputSeat}
      → IsValid c
      → get_elem? c.seats i ≡ some s
      → (pointer_focused s ≤ c.pointer_focus_count) × (keyboard_focused s ≤ c.keyboard_focus_count)
  focused-counted {c} i {s} v at = omega (
    arith,
    v.pointer_counted,
    v.keyboard_counted,
    le-total pointer_focused c.seats i s at,
    le-total keyboard_focused c.seats i s at,
  )

  pub context_init-IsValid : (d : D) (f : Option (Callbacks D)) → IsValid (context_init d f)
  unfolding context_init
  context_init-IsValid d f = record {
    slots = refl;
    pointer_counted = refl;
    keyboard_counted = refl;
    settled = All-replicate IsSettled max_seats blank (ground arith);
  }
