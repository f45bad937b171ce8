-- ===== src/Rect/Paint.antt =====
-- native/wayland_rect.c, lines 160 to 189 and 338 to 486: the picture of a frame.
-- A `Shape` is one call of `rect` or `outline`; the calls of `paint` are a list of them, in order.
use webos_wayland.Base.{
  ℕ, zero, suc, ◌+◌, ◌*◌, ◌/◌, ◌%◌, ℤ, pos, ◌+ℤ◌, ◌-ℤ◌, ltb_ℤ, true, false, List, [], ◌∷◌,
  if◌then◌else◌, ◌==◌,
}
use webos_wayland.Rect.Raster.{rgb, fill_row, rect, outline}

pub data Shape : Type 0 where
  box : ℤ → ℤ → ℤ → ℤ → ℕ → Shape
  border : ℤ → ℤ → ℤ → ℤ → ℤ → ℕ → Shape

unfoldable pub draw : ℕ → ℕ → List Shape → List ℕ → List ℕ
draw w h [] p = p
draw w h (box x y bw bh c ∷ ss) p = draw w h ss (rect p w h x y bw bh c)
draw w h (border x y bw bh t c ∷ ss) p = draw w h ss (outline p w h x y bw bh t c)

-- `draw_android_robot`
unfoldable pub android_robot : ℤ → ℤ → ℕ → ℕ → ℕ → ℕ → List Shape
android_robot cx cy scale green dark white =
    let bw = 140 * scale / 100 in
    let bh = 180 * scale / 100 in
    let hx = cx -ℤ pos (bw / 2) in
    let hy = cy -ℤ pos (bh / 2) in
    let head_w = 110 * scale / 100 in
    let head_h = 80 * scale / 100 in
    let body_w = 140 * scale / 100 in
    let body_h = 110 * scale / 100 in
    let scaled = λ (n : ℕ). pos (n * scale / 100) in
    box (hx +ℤ pos 24) (hy -ℤ pos 54) (pos 6) (pos 34) green
    ∷ box (hx +ℤ pos bw -ℤ pos 30) (hy -ℤ pos 54) (pos 6) (pos 34) green
    ∷ box hx hy (pos bw) (pos bh) dark
    ∷ border hx hy (pos bw) (pos bh) (pos 6) green
    ∷ box (cx -ℤ pos (head_w / 2)) (hy -ℤ pos 28) (pos head_w) (pos head_h) green
    ∷ border (cx -ℤ pos (head_w / 2)) (hy -ℤ pos 28) (pos head_w) (pos head_h) (pos 5) white
    ∷ box (cx -ℤ pos (body_w / 2)) (hy +ℤ pos 60) (pos body_w) (pos body_h) green
    ∷ border (cx -ℤ pos (body_w / 2)) (hy +ℤ pos 60) (pos body_w) (pos body_h) (pos 5) white
    ∷ box (cx -ℤ scaled 44) (hy -ℤ pos 6) (scaled 18) (scaled 18) dark
    ∷ box (cx +ℤ scaled 26) (hy -ℤ pos 6) (scaled 18) (scaled 18) dark
    ∷ box (cx -ℤ scaled 36) (hy +ℤ scaled 44) (scaled 74) (scaled 10) dark
    ∷ box (cx -ℤ scaled 110) (hy +ℤ pos 76) (scaled 10) (scaled 84) green
    ∷ box (cx +ℤ scaled 100) (hy +ℤ pos 76) (scaled 10) (scaled 84) green
    ∷ box (cx -ℤ scaled 108) (hy +ℤ pos 146) (scaled 28) (scaled 12) white
    ∷ box (cx +ℤ scaled 80) (hy +ℤ pos 146) (scaled 28) (scaled 12) white
    ∷ []

-- the background loops: row `y` of width `w` gets the colour `colour y`
unfoldable pub fill_background : ℕ → ℕ → ℕ → (ℕ → ℕ) → List ℕ → List ℕ
unfolding fill_row
fill_background zero y w colour p = p
fill_background (suc n) y w colour p =
    fill_background n (suc y) w colour (fill_row w (y * w) (colour y) p)

-- the four colours of a theme: the two backgrounds, the accent and the panel
pub record Palette : Type 0 where
  pub bg1 : ℕ
  pub bg2 : ℕ
  pub accent : ℕ
  pub panel : ℕ

unfoldable pub palette : ℕ → Palette
unfolding rgb
palette theme =
    if theme % 3 == 0
    then record {
      bg1 = rgb 10 18 36;
      bg2 = rgb 20 36 72;
      accent = rgb 0 180 255;
      panel = rgb 34 54 92;
    }
    else if theme % 3 == 1
    then record {
      bg1 = rgb 28 12 24;
      bg2 = rgb 74 24 58;
      accent = rgb 255 80 190;
      panel = rgb 86 36 76;
    }
    else record {
      bg1 = rgb 12 26 16;
      bg2 = rgb 32 70 42;
      accent = rgb 120 255 120;
      panel = rgb 36 82 50;
    }

-- the colour of row `y`: `bg1`, brighter towards the bottom
unfoldable pub gradient : ℕ → ℕ → ℕ → ℕ
unfolding rgb
gradient bg1 h y =
    let mix = y * 80 / (if h == 0 then 1 else h) % 256 in
    rgb (bg1 / 65536 % 256 + mix / 3) (bg1 / 256 % 256 + mix / 4) (bg1 % 256 + mix / 2)

-- `for (int x = ...; x < w; x += grid)`: the upright lines, and the level ones. The fuel is checked
-- in `Rect.Grid`.
unfoldable pub upright : ℕ → ℤ → ℕ → ℕ → ℕ → List Shape
upright zero x w h c = []
upright (suc fuel) x w h c = elim (ltb_ℤ x (pos w)) [
  | false ↦ []
  | true ↦ box x (pos 0) (pos 2) (pos h) c ∷ upright fuel (x +ℤ pos 96) w h c
]

unfoldable pub level : ℕ → ℤ → ℕ → ℕ → ℕ → List Shape
level zero y w h c = []
level (suc fuel) y w h c = elim (ltb_ℤ y (pos h)) [
  | false ↦ []
  | true ↦ box (pos 0) y (pos w) (pos 2) c ∷ level fuel (y +ℤ pos 96) w h c
]

-- The fuel: the start is above -96, and each round goes on by 96.
abbrev pub lines : ℕ → ℕ
lines extent = extent / 96 + 3

-- the dock: `n` icons from number `i` on
unfoldable pub dock : ℕ → ℕ → ℕ → ℕ → ℕ → Palette → ℕ → List Shape
dock zero i f theme h colours white = []
dock (suc n) i f theme h colours white =
    let pulse = (f + i * 8) % 50 in
    let c = if i == theme % 8 then colours.accent else colours.panel in
    let x = pos (42 + i * 104) in
    let y = pos h -ℤ pos 72 -ℤ pos (pulse / 8) in
    box x y (pos 72) (pos (48 + pulse / 8)) c
    ∷ border x y (pos 72) (pos (48 + pulse / 8)) (pos 2) white
    ∷ dock n (suc i) f theme h colours white

-- the bars of the window: `n` from number `i` on
unfoldable pub bars : ℕ → ℕ → ℕ → ℤ → ℤ → Palette → ℕ → List Shape
bars zero i f wx wy colours white = []
bars (suc n) i f wx wy colours white =
    let bar = 30 + f * (i + 3) % 190 in
    let c = if i % 2 == 0 then white else colours.accent in
    box (wx +ℤ pos 32 +ℤ pos (i * 42)) (wy +ℤ pos 250 -ℤ pos bar) (pos 26) (pos bar) c
    ∷ bars n (suc i) f wx wy colours white
