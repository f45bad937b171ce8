-- ===== src/Rect/Drag.antt =====
-- Dragging the window by its title bar.
use webos_wayland.Base.{
  ℕ, ◌≡◌, refl, ◌∙◌, ap, ℤ, ◌+ℤ◌, ◌-ℤ◌, Bool, true, false, not, ◌&&◌, List, [], ◌∷◌, ◌++◌, ◌==◌,
  ==_iff, arith, +ℤ_parts, -ℤ_parts, eq_of_parts,
}
use webos_wayland.Rect.{App}
use webos_wayland.Rect.Ui.{Pressed, pointer_motion, pointer_button, press, hits, left_button}

-- The point is on the title bar, beside its three buttons.
abbrev pub grabs : App → ℤ → ℤ → Bool
grabs a x y =
    hits a x y 0 500 0 42
    && not (hits a x y 12 34 10 34)
    && not (hits a x y 38 62 10 34)
    && not (hits a x y 64 88 10 34)

-- the pointer goes from point to point
abbrev pub follow : List (ℤ × ℤ) → App → App
follow [] a = a
follow ((x, y) ∷ ps) a = follow ps (pointer_motion a x y)

-- What a drag keeps.
record Drags (dx dy : ℤ) (a : App) : Type 0 where
  on : a.dragging ≡ true
  across : a.drag_dx ≡ dx
  down : a.drag_dy ≡ dy

motion-Drags : {dx dy : ℤ} (a : App) (x y : ℤ) → Drags dx dy a → Drags dx dy (pointer_motion a x y)
unfolding pointer_motion
motion-Drags a x y d = rw d.on (record { on = refl; across = d.across; down = d.down })

follow-Drags : {dx dy : ℤ} (ps : List (ℤ × ℤ)) (a : App) → Drags dx dy a → Drags dx dy (follow ps a)
follow-Drags [] a d = d
follow-Drags ((x, y) ∷ ps) a d = follow-Drags ps (pointer_motion a x y) (motion-Drags a x y d)

motion-Drops :
    (a : App) (x y : ℤ)
    → a.dragging ≡ false
    → ((pointer_motion a x y).dragging ≡ false)
      × ((pointer_motion a x y).win_x ≡ a.win_x)
      × ((pointer_motion a x y).win_y ≡ a.win_y)
unfolding pointer_motion
motion-Drops a x y off = rw off (refl, refl, refl)

-- Without a drag, motions leave the window alone.
follow-Drops :
    (ps : List (ℤ × ℤ)) (a : App)
    → a.dragging ≡ false
    → ((follow ps a).win_x ≡ a.win_x) × ((follow ps a).win_y ≡ a.win_y)
follow-Drops [] a off = (refl, refl)
follow-Drops ((x, y) ∷ ps) a off =
    let (o, h, v) = motion-Drops a x y off in
    let (p, q) = follow-Drops ps (pointer_motion a x y) o in (p ∙ h, q ∙ v)

-- A button event that is not a press ends the drag.
let-go :
    (wl : Pressed) (a : App) (x y : ℤ) (state : ℕ)
    → (state == wl.button) ≡ false
    → ((pointer_button wl a left_button state x y).dragging ≡ false)
      × ((pointer_button wl a left_button state x y).win_x ≡ a.win_x)
      × ((pointer_button wl a left_button state x y).win_y ≡ a.win_y)
unfolding pointer_button
let-go wl a x y state up = rw up (refl, refl, refl)

motion-moves :
    {dx dy : ℤ} (a : App) (x y : ℤ)
    → Drags dx dy a
    → ((pointer_motion a x y).win_x ≡ x -ℤ dx) × ((pointer_motion a x y).win_y ≡ y -ℤ dy)
unfolding pointer_motion
motion-moves a x y d = rw (d.on, d.across, d.down) (refl, refl)

follow-append :
    (ps : List (ℤ × ℤ)) (x y : ℤ) (a : App)
    → follow (ps ++ ((x, y) ∷ [])) a ≡ pointer_motion (follow ps a) x y
follow-append [] x y a = refl
follow-append ((u, v) ∷ ps) x y a = follow-append ps x y (pointer_motion a u v)

-- What `grabs` says of the four boxes.
and_split :
    (t u v w : Bool)
    → (t && not u && not v && not w) ≡ true
    → (t ≡ true) × (u ≡ false) × (v ≡ false) × (w ≡ false)
and_split t u v w g = (ground arith, ground arith, ground arith, ground arith)

pressed-Drags :
    (wl : Pressed) (a : App) (x y : ℤ)
    → grabs a x y ≡ true
    → Drags (x -ℤ a.win_x) (y -ℤ a.win_y) (pointer_button wl a left_button wl.button x y)
unfolding pointer_button press
pressed-Drags wl a x y g =
    let (bar, red, yellow, green) =
      and_split (hits a x y 0 500 0 42) (hits a x y 12 34 10 34) (hits a x y 38 62 10 34)
        (hits a x y 64 88 10 34) g in
    rw ((==_iff wl.button wl.button).1 refl, red, yellow, green, bar)
      (record { on = refl; across = refl; down = refl })

-- Where the window stands after the next motion.
shifted : (x u w : ℤ) → u -ℤ (x -ℤ w) ≡ w +ℤ (u -ℤ x)
shifted x u w =
    eq_of_parts _ _
      (omega (arith, +ℤ_parts w (u -ℤ x), -ℤ_parts u x, -ℤ_parts x w, -ℤ_parts u (x -ℤ w)))

-- A press of the left button at `x`, `y` on the title bar, beside its three buttons, then motions
-- `ps` and a last one to `u`, `v`, move the window by what the pointer went from the press to the
-- end, and the next release of the button ends the drag: motions `qs` after it leave the window where
-- it is.
pub drag_lem :
    (wl : Pressed) (a : App) (x y u v : ℤ) (ps qs : List (ℤ × ℤ)) (state : ℕ)
    → grabs a x y ≡ true
    → (state == wl.button) ≡ false
    → let b = follow (ps ++ ((u, v) ∷ [])) (pointer_button wl a left_button wl.button x y) in
      let c = follow qs (pointer_button wl b left_button state u v) in
      (b.win_x ≡ a.win_x +ℤ (u -ℤ x))
      × (b.win_y ≡ a.win_y +ℤ (v -ℤ y))
      × (c.win_x ≡ b.win_x)
      × (c.win_y ≡ b.win_y)
drag_lem wl a x y u v ps qs state g up =
    let b₀ = pointer_button wl a left_button wl.button x y in
    let d = follow-Drags ps b₀ (pressed-Drags wl a x y g) in
    let m = motion-moves (follow ps b₀) u v d in
    let e = follow-append ps u v b₀ in
    let b = follow (ps ++ ((u, v) ∷ [])) b₀ in
    let (off, rx, ry) = let-go wl b u v state up in
    let (cx, cy) = follow-Drops qs (pointer_button wl b left_button state u v) off in
    (
      ap (λ c. c.win_x) e ∙ m.0 ∙ shifted x u a.win_x,
      ap (λ c. c.win_y) e ∙ m.1 ∙ shifted y v a.win_y,
      cx ∙ rx,
      cy ∙ ry,
    )
