-- ===== src/Rect/Pixels.antt =====
-- What `rect` writes, pixel by pixel.
use webos_wayland.Base.{
  ℕ, zero, suc, ◌+◌, ◌-◌, ◌*◌, ◌≤◌, ◌<◌, ◌≡◌, refl, ℤ, pos, pos_part, ◌+ℤ◌, ltb_ℤ, leb_ℤ, Bool,
  ◌&&◌, some, List, if◌then◌else◌, ltb, leb, get_elem?, set, ◌==◌, length, length-set,
  get_elem?-set_self, get_elem?-set_ne, arith, ap, ◌∙◌,
}
use webos_wayland.Rect.Raster.{clampi, fill_row, fill_rows, rect}
use native.Mathlib.Decide.{ℕ_discrete, dec_lt}

pub length-fill_row : (n i c : ℕ) (p : List ℕ) → length (fill_row n i c p) ≡ length p
unfolding fill_row
length-fill_row zero i c p = refl
length-fill_row (suc n) i c p =
    omega (arith, length-fill_row n (suc i) c (set p i c), length-set p i c)

pub length-fill_rows :
    (n yy sw x0 x1 c : ℕ) (p : List ℕ) → length (fill_rows n yy sw x0 x1 c p) ≡ length p
unfolding fill_rows
length-fill_rows zero yy sw x0 x1 c p = refl
length-fill_rows (suc n) yy sw x0 x1 c p = omega (
  arith,
  length-fill_rows n (suc yy) sw x0 x1 c (fill_row (x1 - x0) (yy * sw + x0) c p),
  length-fill_row (x1 - x0) (yy * sw + x0) c p,
)

pub fill_row_lem :
    (n i c : ℕ) (p : List ℕ) (k : ℕ)
    → i + n ≤ length p
    → get_elem? (fill_row n i c p) k ≡ (if leb i k && ltb k (i + n) then some c else get_elem? p k)
unfolding fill_row
fill_row_lem zero i c p k h = ground arith
fill_row_lem (suc n) i c p k h = elim (ℕ_discrete i k) [
  | yes e ↦
      ground
        (arith, fill_row_lem n (suc i) c (set p i c) k, length-set p i c, get_elem?-set_self p i c)
  | no ne ↦
      ground
        (arith, fill_row_lem n (suc i) c (set p i c) k, length-set p i c, get_elem?-set_ne p c ne)
]

-- Rows do not overlap.
row-le : (r j sw : ℕ) → r < j → r * sw + sw ≤ j * sw
row-le r j sw h = grind arith

-- A pixel of row `j` is in row `r`'s part exactly if it is that row.
in_row :
    (r j i sw x0 x1 : ℕ)
    → i < sw
    → x1 ≤ sw
    → (leb (r * sw + x0) (j * sw + i) && ltb (j * sw + i) (r * sw + x0 + (x1 - x0)))
      ≡ (r == j && leb x0 i && ltb i x1)
in_row r j i sw x0 x1 hi hx = elim (ℕ_discrete r j) [
  | yes e ↦ ground (arith, ap (λ (t : ℕ). t * sw) e)
  | no ne ↦ elim (dec_lt r j) [
    | yes lt ↦ ground (arith, row-le r j sw lt)
    | no ge ↦ ground (arith, row-le j r sw (omega (arith, ne)))
  ]
]

pub fill_rows_lem :
    (n yy sw x0 x1 c : ℕ) (p : List ℕ) (i j : ℕ)
    → i < sw
    → x0 ≤ sw
    → x1 ≤ sw
    → (yy + n) * sw ≤ length p
    → get_elem? (fill_rows n yy sw x0 x1 c p) (j * sw + i) ≡ (
        if leb yy j && ltb j (yy + n) && leb x0 i && ltb i x1
        then some c
        else get_elem? p (j * sw + i))
unfolding fill_rows
fill_rows_lem zero yy sw x0 x1 c p i j hi h₀ h₁ room = ground arith
fill_rows_lem (suc n) yy sw x0 x1 c p i j hi h₀ h₁ room =
    fill_rows_lem n (suc yy) sw x0 x1 c (fill_row (x1 - x0) (yy * sw + x0) c p) i j hi h₀ h₁
      (omega (arith, length-fill_row (x1 - x0) (yy * sw + x0) c p))
    ∙ rw
        (
          fill_row_lem (x1 - x0) (yy * sw + x0) c p (j * sw + i)
              (fits (row-le yy (yy + suc n) sw (omega arith))),
          in_row yy j i sw x0 x1 hi h₁,
        )
        (ground arith)
  where
    fits : yy * sw + sw ≤ (yy + suc n) * sw → yy * sw + x0 + (x1 - x0) ≤ length p
    fits h = omega arith

-- The clamped edges, seen from a pixel of the canvas.
clamp_low :
    (x : ℤ) (m i : ℕ) → i < m → leb (pos_part (clampi x (pos 0) (pos m))) i ≡ leb_ℤ x (pos i)
unfolding clampi
clamp_low x m i h = ground arith

clamp_high :
    (x : ℤ) (m i : ℕ) → i < m → ltb i (pos_part (clampi x (pos 0) (pos m))) ≡ ltb_ℤ (pos i) x
unfolding clampi
clamp_high x m i h = ground arith

clamp-le : (x : ℤ) (m : ℕ) → pos_part (clampi x (pos 0) (pos m)) ≤ m
unfolding clampi
clamp-le x m = ground arith

-- The pixel at column `i` and row `j` lies in the rectangle at `x`, `y` of size `w` by `h`.
abbrev pub covers : ℤ → ℤ → ℤ → ℤ → ℕ → ℕ → Bool
covers x y w h i j =
    leb_ℤ y (pos j) && ltb_ℤ (pos j) (y +ℤ h) && leb_ℤ x (pos i) && ltb_ℤ (pos i) (x +ℤ w)

module _ (p : List ℕ) (sw sh : ℕ) (whole : length p ≡ sh * sw) where
  -- `rect` writes its colour to exactly the pixels of the canvas that the rectangle covers, also
  -- where it sticks out of the canvas on any side, and leaves the others and the size alone.
  pub rect_lem :
      (x y w h : ℤ) (c i j : ℕ)
      → i < sw
      → j < sh
      → get_elem? (rect p sw sh x y w h c) (j * sw + i)
        ≡ (if covers x y w h i j then some c else get_elem? p (j * sw + i))
  unfolding rect
  rect_lem x y w h c i j hi hj =
      fill_rows_lem (y1 - y0) y0 sw x0 x1 c p i j hi (clamp-le x sw) (clamp-le (x +ℤ w) sw)
        (omega (arith, whole, rows-le))
      ∙ rows_covered
    where
      x0 : ℕ
      x0 = pos_part (clampi x (pos 0) (pos sw))

      y0 : ℕ
      y0 = pos_part (clampi y (pos 0) (pos sh))

      x1 : ℕ
      x1 = pos_part (clampi (x +ℤ w) (pos 0) (pos sw))

      y1 : ℕ
      y1 = pos_part (clampi (y +ℤ h) (pos 0) (pos sh))

      product-le : (a b : ℕ) → a ≤ b → a * sw ≤ b * sw
      product-le a b le = grind arith

      rows-le : (y0 + (y1 - y0)) * sw ≤ sh * sw
      rows-le = product-le (y0 + (y1 - y0)) sh (omega (arith, clamp-le y sh, clamp-le (y +ℤ h) sh))

      range : (leb y0 j && ltb j (y0 + (y1 - y0))) ≡ (leb y0 j && ltb j y1)
      range = ground arith

      rows_covered :
          (if leb y0 j && ltb j (y0 + (y1 - y0)) && leb x0 i && ltb i x1
            then some c
            else get_elem? p (j * sw + i))
          ≡ (if covers x y w h i j then some c else get_elem? p (j * sw + i))
      rows_covered = ground (
        arith,
        range,
        clamp_low y sh j hj,
        clamp_high (y +ℤ h) sh j hj,
        clamp_low x sw i hi,
        clamp_high (x +ℤ w) sw i hi,
      )

pub length-rect :
    (p : List ℕ) (sw sh : ℕ) (x y w h : ℤ) (c : ℕ) → length (rect p sw sh x y w h c) ≡ length p
unfolding rect
length-rect p sw sh x y w h c = search length-fill_rows
