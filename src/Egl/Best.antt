-- ===== src/Egl/Best.antt =====
-- The configuration that `choose_config` takes is suitable, and no suitable one scores better.
use webos_wayland.Base.{
  ℕ, zero, suc, ◌≡◌, ◌≢◌, refl, ◌∙◌, ap, sym, subst, ℤ, ◌≤ℤ◌, ltb_ℤ, Bool, true, false, ◌&&◌,
  Option, none, some, List, [], ◌∷◌, get_elem?, arith, Bool-cases, inl, inr, String,
}
use webos_wayland.Egl.Config.{
  EglHeaders, Config, is_suitable, score, better, best_of, choose_config, no_score,
}

-- What the loop ends with is what it began with, or a suitable configuration of the list.
data IsFrom (egl : EglHeaders) (mode : String) (first : ℤ × Option Config) (cs : List Config)
    : ℤ × Option Config → Type 0 where
  kept : IsFrom egl mode first cs first
  found :
      (i : ℕ) {c : Config}
      → get_elem? cs i ≡ some c
      → is_suitable egl mode c ≡ true
      → IsFrom egl mode first cs (score mode c, some c)

≤ℤ-trans : (a b c : ℤ) → a ≤ℤ b → b ≤ℤ c → a ≤ℤ c
≤ℤ-trans a b c h k = omega (arith, h, k)

above : (a b : ℤ) → ltb_ℤ a b ≡ true → a ≤ℤ b
above a b h = ground (arith, h)

below : (a b : ℤ) → ltb_ℤ a b ≡ false → b ≤ℤ a
below a b h = ground (arith, h)

and-second : (t u : Bool) → (t && u) ≡ true → u ≡ true
and-second t u h = ground arith

the-config : {c d : Config} → some c ≡ some d → c ≡ d
the-config h = cc

none-some : {c : Config} → none ≢ some c
none-some h = cc

module _ (egl : EglHeaders) (mode : String) where
  later :
      {first : ℤ × Option Config} {c : Config} {cs : List Config} {s : ℤ × Option Config}
      → IsFrom egl mode first cs s
      → IsFrom egl mode first (c ∷ cs) s
  later kept = kept
  later (found i at ok) = found (suc i) at ok

  started :
      {c : Config} {cs : List Config} {s : ℤ × Option Config}
      → is_suitable egl mode c ≡ true
      → {first : ℤ × Option Config} → IsFrom egl mode (score mode c, some c) cs s
      → IsFrom egl mode first (c ∷ cs) s
  started ok kept = found 0 refl ok
  started ok (found i at good) = found (suc i) at good

  best_of-IsFrom :
      (state : ℤ × Option Config) (cs : List Config)
      → IsFrom egl mode state cs (best_of egl mode state cs)
  unfolding best_of better
  best_of-IsFrom state [] = kept
  best_of-IsFrom (s, b) (c ∷ cs) =
      elim (Bool-cases (is_suitable egl mode c && ltb_ℤ s (score mode c))) [
        | inl e ↦ rw e (started (ground arith) (best_of-IsFrom (score mode c, some c) cs))
        | inr e ↦ rw e (later (best_of-IsFrom (s, b) cs))
      ]

  better-grows : (s : ℤ) (b : Option Config) (c : Config) → s ≤ℤ (better egl mode (s, b) c).0
  unfolding better
  better-grows s b c = elim (Bool-cases (is_suitable egl mode c && ltb_ℤ s (score mode c))) [
    | inl e ↦ rw (better, e) (above s (score mode c) (and-second (is_suitable egl mode c) _ e))
    | inr e ↦ rw (better, e) (omega arith)
  ]

  better-covers :
      (s : ℤ) (b : Option Config) (c : Config)
      → is_suitable egl mode c ≡ true
      → score mode c ≤ℤ (better egl mode (s, b) c).0
  unfolding better
  better-covers s b c ok = elim (Bool-cases (ltb_ℤ s (score mode c))) [
    | inl e ↦ rw (better, ok, e) (omega arith)
    | inr e ↦ rw (better, ok, e) (below s (score mode c) e)
  ]

  -- The score only grows.
  best_of-grows :
      (state : ℤ × Option Config) (cs : List Config) → state.0 ≤ℤ (best_of egl mode state cs).0
  unfolding best_of
  best_of-grows state [] = omega arith
  best_of-grows (s, b) (c ∷ cs) =
      ≤ℤ-trans s (better egl mode (s, b) c).0 _ (better-grows s b c)
        (best_of-grows (better egl mode (s, b) c) cs)

  best_of-best :
      (state : ℤ × Option Config) (cs : List Config) (i : ℕ) {c : Config}
      → get_elem? cs i ≡ some c
      → is_suitable egl mode c ≡ true
      → score mode c ≤ℤ (best_of egl mode state cs).0
  unfolding best_of
  best_of-best (s, b) (d ∷ cs) zero {c} at ok =
      let same = the-config at in
      ≤ℤ-trans (score mode c) (better egl mode (s, b) d).0 _
        (subst (λ e. score mode e ≤ℤ (better egl mode (s, b) d).0) same
          (better-covers s b d (ap (is_suitable egl mode) same ∙ ok)))
        (best_of-grows (better egl mode (s, b) d) cs)
  best_of-best state (d ∷ cs) (suc i) at ok = best_of-best (better egl mode state d) cs i at ok
  best_of-best state [] i at ok = cc

  taken-score :
      {cs : List Config} {s : ℤ} {o : Option Config} {best : Config}
      → IsFrom egl mode (no_score, none) cs (s, o)
      → o ≡ some best
      → (is_suitable egl mode best ≡ true)
        × ((j : ℕ) × (get_elem? cs j ≡ some best))
        × (s ≡ score mode best)
  taken-score kept e = absurd (none-some e)
  taken-score {cs} (found i {c} at ok) e =
      let same = the-config e in
      (subst (λ d. is_suitable egl mode d ≡ true) same ok, (i, at ∙ e), ap (score mode) same)

  -- The configuration that `choose_config` takes stands in the list and is suitable, and no suitable
  -- configuration of the list has a higher score.
  pub choose_config-best :
      (cs : List Config) (i : ℕ) {c best : Config}
      → choose_config egl mode (some cs) ≡ some best
      → get_elem? cs i ≡ some c
      → is_suitable egl mode c ≡ true
      → (is_suitable egl mode best ≡ true)
        × ((j : ℕ) × (get_elem? cs j ≡ some best))
        × (score mode c ≤ℤ score mode best)
  unfolding choose_config
  choose_config-best cs i {c} {best} chosen at ok =
      let (good, place, same) = taken-score (best_of-IsFrom (no_score, none) cs) chosen in
      (good, place, subst (λ z. score mode c ≤ℤ z) same (best_of-best (no_score, none) cs i at ok))

  pub choose_config-suitable :
      (cs : List Config) {best : Config}
      → choose_config egl mode (some cs) ≡ some best
      → is_suitable egl mode best ≡ true
  unfolding choose_config
  choose_config-suitable cs chosen = (taken-score (best_of-IsFrom (no_score, none) cs) chosen).0

  -- If `choose_config` reports a failure on a list, no suitable configuration of it scores above
  -- -1000000.
  pub choose_config-none :
      (cs : List Config) (i : ℕ) {c : Config}
      → choose_config egl mode (some cs) ≡ none
      → get_elem? cs i ≡ some c
      → is_suitable egl mode c ≡ true
      → score mode c ≤ℤ no_score
  unfolding choose_config
  choose_config-none cs i {c} failed at ok =
      subst (λ z. score mode c ≤ℤ z) (left-score (best_of-IsFrom (no_score, none) cs) failed)
        (best_of-best (no_score, none) cs i at ok)
    where
      left-score :
          {s : ℤ} {o : Option Config}
          → IsFrom egl mode (no_score, none) cs (s, o)
          → o ≡ none
          → s ≡ no_score
      left-score kept e = refl
      left-score (found j here good) e = absurd (none-some (sym e))
