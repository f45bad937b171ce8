-- ===== src/Input/Slots.antt =====
-- `find_slot`, the searches of `webos_input_try_bind` and `webos_input_global_remove`.
use webos_wayland.Base.{
  ℕ, zero, suc, ◌-◌, ◌≤◌, ◌<◌, ◌≡◌, refl, Bool, true, false, none, some, List, [], ◌∷◌, get_elem?,
  arith, Bool-cases, inl, inr,
}
use webos_wayland.Input.{InputSeat}
use webos_wayland.Input.Registry.{find_slot}

-- `j` is the first slot of `xs`, counted from `k`, whose test holds, and it holds `found`.
pub record IsFirst (test : InputSeat → Bool) (k : ℕ) (xs : List InputSeat) (j : ℕ) : Type 0 where
  pub found : InputSeat
  pub from : k ≤ j
  pub at : get_elem? xs (j - k) ≡ some found
  pub passes : test found ≡ true
  pub before : (m : ℕ) (s : InputSeat) → m < j - k → get_elem? xs m ≡ some s → test s ≡ false

IsFirst-suc :
    (test : InputSeat → Bool) (k : ℕ) (x : InputSeat) (xs : List InputSeat) (j : ℕ)
    → test x ≡ false
    → IsFirst test (suc k) xs j
    → IsFirst test k (x ∷ xs) j
IsFirst-suc test k x xs j fails r =
    let e : j - k ≡ suc (j - suc k) = omega (arith, r.from) in
    record {
      found = r.found;
      from = omega (arith, r.from);
      at = rw e r.at;
      passes = r.passes;
      before = λ m s lt at. rest e m s lt at;
    }
  where
    rest :
        j - k ≡ suc (j - suc k)
        → (m : ℕ) (s : InputSeat) → m < j - k
        → get_elem? (x ∷ xs) m ≡ some s
        → test s ≡ false
    rest e zero s lt at = ground arith
    rest e (suc m) s lt at = r.before m s (omega arith) at

pub find_slot-IsFirst :
    (test : InputSeat → Bool) (k : ℕ) (xs : List InputSeat) (j : ℕ)
    → find_slot test k xs ≡ some j
    → IsFirst test k xs j
unfolding find_slot
find_slot-IsFirst test k [] j h = cc
find_slot-IsFirst test k (x ∷ xs) j h = elim (Bool-cases (test x)) [
  | inl hit ↦
      let e : k ≡ j = ground arith in
      record {
        found = x;
        from = omega arith;
        at = rw (zero_of e) refl;
        passes = hit;
        before = λ m s lt at. absurd (omega arith);
      }
  | inr miss ↦ IsFirst-suc test k x xs j miss (find_slot-IsFirst test (suc k) xs j (ground arith))
]
  where
    zero_of : k ≡ j → j - k ≡ 0
    zero_of e = omega arith

pub find_slot-none :
    (test : InputSeat → Bool) (k : ℕ) (xs : List InputSeat)
    → find_slot test k xs ≡ none
    → (m : ℕ) (s : InputSeat) → get_elem? xs m ≡ some s
    → test s ≡ false
unfolding find_slot
find_slot-none test k [] h m s at = cc
find_slot-none test k (x ∷ xs) h zero s at = ground arith
find_slot-none test k (x ∷ xs) h (suc m) s at = find_slot-none test (suc k) xs (ground arith) m s at
