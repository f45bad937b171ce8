-- ===== src/Rect/Grid.antt =====
-- The fuel of the grid of `paint` is enough.
use webos_wayland.Base.{
  ℕ, zero, suc, ◌+◌, ◌*◌, ◌%◌, ◌≤◌, ◌≡◌, refl, ℤ, pos, sub_ℕ, pos_part, neg_part, ◌+ℤ◌, ltb_ℤ,
  Bool-cases, inl, inr, ◌∷◌, ap, arith, +ℤ_parts,
}
use webos_wayland.Rect.Paint.{box, upright, level, lines}

-- `fuel` rounds of 96 from `x` reach `extent`.
abbrev Reaches : ℕ → ℤ → ℕ → Type 0
Reaches fuel x extent = extent + neg_part x ≤ fuel * 96 + pos_part x

Reaches-next :
    (fuel : ℕ) (x : ℤ) (extent : ℕ)
    → Reaches (suc fuel) x extent
    → Reaches fuel (x +ℤ pos 96) extent
Reaches-next fuel x extent r = omega (arith, +ℤ_parts x (pos 96), r)

upright-more :
    (fuel more : ℕ) (x : ℤ) (w h c : ℕ)
    → Reaches fuel x w
    → fuel ≤ more
    → upright more x w h c ≡ upright fuel x w h c
unfolding upright
upright-more zero zero x w h c r le = refl
upright-more zero (suc more) x w h c r le = ground arith
upright-more (suc fuel) zero x w h c r le = ground arith
upright-more (suc fuel) (suc more) x w h c r le = elim (Bool-cases (ltb_ℤ x (pos w))) [
  | inl on ↦
      rw (on, upright)
        (ap (λ l. box x (pos 0) (pos 2) (pos h) c ∷ l)
          (upright-more fuel more (x +ℤ pos 96) w h c (Reaches-next fuel x w r)
            (omega (arith, le))))
  | inr off ↦ rw (off, upright) refl
]

level-more :
    (fuel more : ℕ) (y : ℤ) (w h c : ℕ)
    → Reaches fuel y h
    → fuel ≤ more
    → level more y w h c ≡ level fuel y w h c
unfolding level
level-more zero zero y w h c r le = refl
level-more zero (suc more) y w h c r le = ground arith
level-more (suc fuel) zero y w h c r le = ground arith
level-more (suc fuel) (suc more) y w h c r le = elim (Bool-cases (ltb_ℤ y (pos h))) [
  | inl on ↦
      rw (on, level)
        (ap (λ l. box (pos 0) y (pos w) (pos 2) c ∷ l)
          (level-more fuel more (y +ℤ pos 96) w h c (Reaches-next fuel y h r) (omega (arith, le))))
  | inr off ↦ rw (off, level) refl
]

lines-Reaches : (frame extent : ℕ) → Reaches (lines extent) (sub_ℕ 0 (frame % 96)) extent
lines-Reaches frame extent = ground arith

-- From the start that `paint` gives them, the loops of the grid draw with any more fuel what they
-- draw with the fuel of `paint`.
pub grid-lines :
    (frame w h c more : ℕ)
    → (upright (lines w + more) (sub_ℕ 0 (frame % 96)) w h c
        ≡ upright (lines w) (sub_ℕ 0 (frame % 96)) w h c)
      × (level (lines h + more) (sub_ℕ 0 (frame % 96)) w h c
          ≡ level (lines h) (sub_ℕ 0 (frame % 96)) w h c)
grid-lines frame w h c more = (
  upright-more (lines w) (lines w + more) _ w h c (lines-Reaches frame w) (omega arith),
  level-more (lines h) (lines h + more) _ w h c (lines-Reaches frame h) (omega arith),
)
