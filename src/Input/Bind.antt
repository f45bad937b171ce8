-- ===== src/Input/Bind.antt =====
-- Seats that come and go: which slot a seat takes, and that its removal undoes it.
use webos_wayland.Base.{
  ℕ, zero, suc, ◌+◌, ◌≡◌, refl, Bool, true, false, Option, none, some, List, [], ◌∷◌, ◌++◌,
  get_elem?, set, arith, if◌then◌else◌, leb, u32, lt_of_get_elem?, get_elem?-set_self, set-set, ap,
  ◌∙◌, subst, All, All-take, take,
}
use webos_wayland.Wayland.{Headers, Proxy}
use webos_wayland.Input.{InputSeat, Context, bind_seat, release_seat, destroy_seat}
use webos_wayland.Input.Focus.{
  clear_pointer_focus, clear_keyboard_focus, destroy_pointer, destroy_keyboard, destroy_seat_proxy,
}
use webos_wayland.Input.Registry.{
  blank, try_bind, global_remove, destroy_input_seat, find_slot, is_free, is_named, bind_slot,
  bind_version,
}
use webos_wayland.Input.Invariant.{IsValid, seat-IsSettled}
use webos_wayland.Input.Slots.{find_slot-IsFirst, find_slot-none}
use webos_wayland.Input.Step.{found_slot}
use native.Mathlib.Nat.{add-zero, add-suc, suc-add}

-- A write to a slot that passes, where no other slot does, is found.
find_slot-set :
    (test : InputSeat → Bool) (xs : List InputSeat) (k i : ℕ) (s t : InputSeat)
    → get_elem? xs i ≡ some s
    → test t ≡ true
    → ((m : ℕ) (u : InputSeat) → get_elem? xs m ≡ some u → test u ≡ false)
    → find_slot test k (set xs i t) ≡ some (k + i)
unfolding find_slot
find_slot-set test [] k i s t at hit miss = cc
find_slot-set test (x ∷ xs) k zero s t at hit miss = rw (hit, add-zero)
find_slot-set test (x ∷ xs) k (suc i) s t at hit miss =
    rw (miss 0 x refl, add-suc, ← suc-add)
      (find_slot-set test xs (suc k) i s t at hit (λ m u e. miss (suc m) u e))

module _ {D : Type 0} where
  -- A seat that is announced when a slot is free, and that the registry binds, goes to the first
  -- free slot: that slot gets the proxy, the name and the next index, no other slot changes, the
  -- slots before it are all taken, and the one request is the binding.
  pub try_bind-first_free :
      (name version : ℕ) (bind : ℕ → Option Proxy) (c : Context D) {i : ℕ} {p : Proxy}
      → find_slot is_free 0 c.seats ≡ some i
      → bind (bind_version version) ≡ some p
      → let (took, c') = try_bind name "wl_seat" version bind c in
        (took ≡ true)
        × ((s : InputSeat) × (is_free s ≡ true)
            × (get_elem? c.seats i ≡ some s)
            × (c'.seats
                ≡ set c.seats i
                    (record s { seat = some p; registry_name = name; index = c.seat_count })))
        × All (λ u. is_free u ≡ false) (take i c.seats)
        × (c'.sent ≡ c.sent ++ (bind_seat p ∷ []))
  unfolding try_bind bind_slot
  try_bind-first_free name version bind c {i} {p} found bound =
      let r = find_slot-IsFirst is_free 0 c.seats i found in
      let at : get_elem? c.seats i ≡ some r.found =
        subst (λ n. get_elem? c.seats n ≡ some r.found) (omega arith) r.at in
      (
        ground arith,
        (r.found, r.passes, at, ground arith),
        All-take (λ u. is_free u ≡ false) c.seats i (λ m u lt e. r.before m u (omega arith) e),
        ground arith,
      )

  -- A seat's slot with neither device nor focus: its removal only gives up the seat.
  destroy_input_seat_lem :
      (wl : Headers) (i : ℕ) (s : InputSeat) (p : Proxy) (c : Context D)
      → get_elem? c.seats i ≡ some s
      → s.seat ≡ some p
      → s.pointer ≡ none
      → s.keyboard ≡ none
      → s.pointer_focused ≡ false
      → s.keyboard_focused ≡ false
      → destroy_input_seat wl i c ≡ record c {
        seats = set c.seats i blank;
        sent =
            c.sent
            ++ ((if leb wl.seat_release_since p.version then release_seat p else destroy_seat p)
                ∷ []);
      }
  unfolding destroy_input_seat clear_pointer_focus clear_keyboard_focus destroy_pointer
      destroy_keyboard destroy_seat_proxy
  destroy_input_seat_lem wl i s p c at seat pointer keyboard pf kf =
      ground (arith, set-set c.seats i (record s { seat = none }) blank)

  -- In a valid context with a free slot, the announcement of a seat that the registry binds, under a
  -- name that no bound seat has, followed at once by its removal, counts it and leaves the first free slot blank and every other slot, the focus counters and the client as
  -- they were, and gives up the proxy that it made.
  pub global_remove-try_bind :
      (wl : Headers) (name version : ℕ) (bind : ℕ → Option Proxy) (c : Context D) {i : ℕ}
      {p : Proxy}
      → IsValid c
      → find_slot (is_named name) 0 c.seats ≡ none
      → find_slot is_free 0 c.seats ≡ some i
      → bind (bind_version version) ≡ some p
      → global_remove wl name (try_bind name "wl_seat" version bind c).1 ≡ record c {
        seats = set c.seats i blank;
        seat_count = u32 (c.seat_count + 1);
        sent =
            (c.sent ++ (bind_seat p ∷ []))
            ++ ((if leb wl.seat_release_since p.version then release_seat p else destroy_seat p)
                ∷ []);
      }
  unfolding try_bind bind_slot global_remove
  global_remove-try_bind wl name version bind c {i} {p} v fresh free bound =
      let (s, at, empty) = found_slot is_free c i v free in
      let t : InputSeat = record s { seat = some p; registry_name = name; index = c.seat_count } in
      let lt = lt_of_get_elem? c.seats i s at.at in
      let there : find_slot (is_named name) 0 (set c.seats i t) ≡ some i =
        find_slot-set (is_named name) c.seats 0 i s t at.at (ground arith)
          (find_slot-none (is_named name) 0 c.seats fresh)
        ∙ ap some (omega arith) in
      let c' : Context D = record c {
        seats = set c.seats i t;
        seat_count = u32 (c.seat_count + 1);
        sent = c.sent ++ (bind_seat p ∷ []);
      } in
      ground (
        arith,
        there,
        destroy_input_seat_lem wl i t p c' (get_elem?-set_self c.seats i t lt),
        seat-IsSettled i v at.at,
        set-set c.seats i t blank,
      )
