-- ===== src/Rect/Picture.antt =====
-- native/wayland_rect.c, `paint` (lines 338 to 486), on the shapes of `Rect.Paint`.
use webos_wayland.Base.{
  ℕ, ◌+◌, ◌*◌, ◌%◌, ℤ, pos, sub_ℕ, pos_part, neg_part, ◌+ℤ◌, ◌-ℤ◌, ◌/ℤ◌, Bool, not, ◌&&◌, List, [],
  ◌∷◌, ◌++◌, if◌then◌else◌, ◌==◌,
}
use webos_wayland.Rect.{App}
use webos_wayland.Rect.Raster.{rgb, clampi}
use webos_wayland.Rect.Paint.{
  Shape, box, border, draw, android_robot, fill_background, Palette, palette, gradient, upright,
  level, lines, dock, bars,
}

-- the crosshair of `android_mode`, and that of the desktop
unfoldable pub small_pointer : App → ℕ → List Shape
small_pointer a white =
    if a.have_pointer
    then (let px = clampi a.pointer_x (pos 0) (a.width -ℤ pos 1) in
        let py = clampi a.pointer_y (pos 0) (a.height -ℤ pos 1) in
        box (px -ℤ pos 10) (py -ℤ pos 2) (pos 20) (pos 4) white
        ∷ box (px -ℤ pos 2) (py -ℤ pos 10) (pos 4) (pos 20) white
        ∷ [])
    else []

unfoldable pub large_pointer : App → ℕ → ℕ → List Shape
large_pointer a white accent =
    if a.have_pointer
    then (let px = clampi a.pointer_x (pos 0) (a.width -ℤ pos 1) in
        let py = clampi a.pointer_y (pos 0) (a.height -ℤ pos 1) in
        box (px -ℤ pos 18) (py -ℤ pos 2) (pos 36) (pos 4) white
        ∷ box (px -ℤ pos 2) (py -ℤ pos 18) (pos 4) (pos 36) white
        ∷ box (px -ℤ pos 8) (py -ℤ pos 8) (pos 16) (pos 16) accent
        ∷ [])
    else []

-- the calls under `if (a->android_mode)`
unfoldable pub android_shapes : App → List Shape
unfolding rgb clampi small_pointer android_robot
android_shapes a =
    let w = a.width in
    let h = a.height in
    let green = rgb 105 230 120 in
    let dark = rgb 18 24 30 in
    let blue = rgb 72 138 255 in
    let grey = rgb 54 60 68 in
    let cx = clampi ((w -ℤ pos 1020) /ℤ 2) (pos 60) (w -ℤ pos 1020 -ℤ pos 60) in
    let cy = clampi ((h -ℤ pos 420) /ℤ 2) (pos 120) (h -ℤ pos 420 -ℤ pos 120) in
    let x = cx +ℤ pos 360 in
    let progress =
      λ (full step : ℕ). pos (if a.android_ready then full else a.frame * step % full) in
    (box (pos 0) (pos 0) w (pos 88) (rgb 9 12 18)
      ∷ box (pos 0) (pos 86) w (pos 3) green
      ∷ box cx cy (pos 1020) (pos 420) (rgb 16 20 28)
      ∷ border cx cy (pos 1020) (pos 420) (pos 4) green
      ∷ android_robot (cx +ℤ pos 190) (cy +ℤ pos 210) 150 green dark (rgb 242 242 242))
    ++ (box x (cy +ℤ pos 82) (pos 520) (pos 42) green
        ∷ box x (cy +ℤ pos 82) (progress 520 18) (pos 42) blue
        ∷ box x (cy +ℤ pos 150) (pos 520) (pos 18) grey
        ∷ box x (cy +ℤ pos 184) (pos 430) (pos 18) grey
        ∷ box x (cy +ℤ pos 218) (pos 470) (pos 18) grey
        ∷ box x (cy +ℤ pos 266) (pos 360) (pos 54) green
        ∷ box x (cy +ℤ pos 266) (progress 360 9) (pos 54) blue
        ∷ box x (cy +ℤ pos 354) (pos 520) (pos 6) grey
        ∷ box x (cy +ℤ pos 354) (progress 520 13) (pos 6) green
        ∷ small_pointer a (rgb 235 235 235))
    ++ (border (pos 0) (pos 0) w h (pos 4) green ∷ [])

-- `(f * 7) % (w - 80)`: the remainder has the sign of the first operand, which is not negative.
abbrev pub meter : ℕ → ℤ → ℕ
meter f w = f * 7 % (pos_part (w -ℤ pos 80) + neg_part (w -ℤ pos 80))

-- the calls of the desktop before the window, and those of the window at `wx`, `wy`
unfoldable pub backdrop : App → Palette → ℕ → List Shape
unfolding rgb upright level dock
backdrop a colours white =
    let w = a.width in
    let h = a.height in
    let cw = pos_part w in
    let ch = pos_part h in
    upright (lines cw) (sub_ℕ 0 (a.frame % 96)) cw ch colours.bg2
    ++ level (lines ch) (sub_ℕ 0 (a.frame % 96)) cw ch colours.bg2
    ++ (box (pos 0) (pos 0) w (pos 72) (rgb 8 8 12)
        ∷ box (pos 0) (pos 70) w (pos 2) colours.accent
        ∷ box (pos 40) (pos 26) (w -ℤ pos 80) (pos 18) (rgb 38 38 44)
        ∷ box (pos 40) (pos 26) (pos (meter a.frame w)) (pos 18) colours.accent
        ∷ box (pos 0) (h -ℤ pos 96) w (pos 96) (rgb 8 10 14)
        ∷ dock 8 0 a.frame a.theme ch colours white)

unfoldable pub window : App → Palette → ℕ → ℤ → ℤ → List Shape
unfolding rgb bars large_pointer clampi
window a colours white wx wy =
    let f = a.frame in
    let orb_x = wx +ℤ pos 250 +ℤ (pos (f * 5 % 220) -ℤ pos 110) in
    let orb_y = wy +ℤ pos 144 +ℤ (pos (f * 3 % 120) -ℤ pos 60) in
    (box (wx +ℤ pos 14) (wy +ℤ pos 18) (pos 500) (pos 300) (rgb 0 0 0)
      ∷ box wx wy (pos 500) (pos 300) colours.panel
      ∷ box wx wy (pos 500) (pos 42) (if a.dragging then colours.accent else rgb 16 18 26)
      ∷ box (wx +ℤ pos 14) (wy +ℤ pos 12) (pos 18) (pos 18) (rgb 255 80 80)
      ∷ box (wx +ℤ pos 40) (wy +ℤ pos 12) (pos 18) (pos 18) (rgb 255 210 80)
      ∷ box (wx +ℤ pos 66) (wy +ℤ pos 12) (pos 18) (pos 18) (rgb 80 255 130)
      ∷ border wx wy (pos 500) (pos 300) (pos 3) colours.accent
      ∷ bars 10 0 f wx wy colours white)
    ++ (box (orb_x -ℤ pos 28) (orb_y -ℤ pos 28) (pos 56) (pos 56) colours.accent
        ∷ border (orb_x -ℤ pos 36) (orb_y -ℤ pos 36) (pos 72) (pos 72) (pos 3) white
        ∷ large_pointer a white colours.accent)
    ++ (border (pos 0) (pos 0) a.width a.height (pos 5) colours.accent ∷ [])

-- `paint` on the pixels of a buffer; `ready` is what `android_sidecar_ready` finds.
unfoldable pub paint_android : Bool → App → List ℕ → App × List ℕ
unfolding rgb android_shapes fill_background draw
paint_android ready a p =
    let a' = record a { android_ready = ready } in
    let w = pos_part a.width in
    let h = pos_part a.height in
    (a', draw w h (android_shapes a') (fill_background h 0 w (λ y. rgb 5 8 12) p))

unfoldable pub paint_desktop : App → List ℕ → App × List ℕ
unfolding rgb palette gradient fill_background backdrop window clampi draw
paint_desktop a p =
    let colours = palette a.theme in
    let white = rgb 235 235 235 in
    let w = pos_part a.width in
    let h = pos_part a.height in
    let wx = clampi a.win_x (pos 20) (a.width -ℤ pos 520) in
    let wy = clampi a.win_y (pos 90) (a.height -ℤ pos 360) in
    (
      record a { win_x = wx; win_y = wy },
      draw w h (backdrop a colours white ++ window a colours white wx wy)
          (fill_background h 0 w (gradient colours.bg1 h) p),
    )

unfoldable pub paint : Bool → App → List ℕ → App × List ℕ
unfolding paint_android paint_desktop
paint ready a p = if a.android_mode then paint_android ready a p else paint_desktop a p

-- The division by zero in `meter`, which ends the program.
unfoldable pub paint_faults : App → Bool
paint_faults a = not a.android_mode && (pos_part a.width == 80)
