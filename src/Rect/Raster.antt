-- ===== src/Rect/Raster.antt =====
-- native/wayland_rect.c, lines 77 to 85 and 317 to 336: colours and rectangles.
use webos_wayland.Base.{
  ℕ, zero, suc, ◌+◌, ◌-◌, ◌*◌, ◌%◌, ℤ, pos, pos_part, ◌+ℤ◌, ◌-ℤ◌, ltb_ℤ, List, if◌then◌else◌, set,
}

-- The fields of a colour do not overlap, so `|` adds them.
unfoldable pub rgb : ℕ → ℕ → ℕ → ℕ
rgb r g b = 0xff000000 + r % 256 * 65536 + g % 256 * 256 + b % 256

unfoldable pub clampi : ℤ → ℤ → ℤ → ℤ
clampi v lo hi = if ltb_ℤ v lo then lo else if ltb_ℤ hi v then hi else v

-- the inner loop of `rect`: `n` pixels from index `i` on
unfoldable pub fill_row : ℕ → ℕ → ℕ → List ℕ → List ℕ
fill_row zero i c p = p
fill_row (suc n) i c p = fill_row n (suc i) c (set p i c)

-- the outer loop: `n` rows from row `yy` on, each from column `x0` to `x1`
unfoldable pub fill_rows : ℕ → ℕ → ℕ → ℕ → ℕ → ℕ → List ℕ → List ℕ
unfolding fill_row
fill_rows zero yy sw x0 x1 c p = p
fill_rows (suc n) yy sw x0 x1 c p =
    fill_rows n (suc yy) sw x0 x1 c (fill_row (x1 - x0) (yy * sw + x0) c p)

-- A canvas is `sw` by `sh`, the size of an accepted buffer, so neither is negative; the edges are
-- clamped into it, so they are no longer negative either.
unfoldable pub rect : List ℕ → ℕ → ℕ → ℤ → ℤ → ℤ → ℤ → ℕ → List ℕ
unfolding clampi fill_rows
rect p sw sh x y w h c =
    let x0 = pos_part (clampi x (pos 0) (pos sw)) in
    let y0 = pos_part (clampi y (pos 0) (pos sh)) in
    let x1 = pos_part (clampi (x +ℤ w) (pos 0) (pos sw)) in
    let y1 = pos_part (clampi (y +ℤ h) (pos 0) (pos sh)) in fill_rows (y1 - y0) y0 sw x0 x1 c p

unfoldable pub outline : List ℕ → ℕ → ℕ → ℤ → ℤ → ℤ → ℤ → ℤ → ℕ → List ℕ
unfolding rect
outline p sw sh x y w h t c =
    let p₁ = rect p sw sh x y w t c in
    let p₂ = rect p₁ sw sh x (y +ℤ h -ℤ t) w t c in
    let p₃ = rect p₂ sw sh x y t h c in rect p₃ sw sh (x +ℤ w -ℤ t) y t h c
