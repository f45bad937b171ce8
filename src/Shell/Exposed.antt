-- ===== src/Shell/Exposed.antt =====
-- `handle_exposed` against a reading of the array by rectangles.
use webos_wayland.Base.{
  ℕ, zero, suc, ◌+◌, ◌/◌, ◌≤◌, ◌<◌, ◌≡◌, ℤ, Bool, false, ◌&&◌, ◌||◌, some, List, [], ◌∷◌,
  if◌then◌else◌, get_elem?, length, arith, get_elem?-append, Bool-cases, inl, inr, ◌∙◌, ap,
}
use webos_wayland.Shell.Events.{is_positive, is_end, WlArray, scan, scan_array}

-- Some rectangle x, y, width, height has an area, before the end mark -1 and before a last
-- rectangle that is cut short.
abbrev pub has_area : List ℤ → Bool
has_area (x ∷ y ∷ w ∷ h ∷ rest) =
    if is_end x then false else (is_positive w && is_positive h) || has_area rest
has_area _ = false

-- What `wl_array` promises: `data` holds `size` bytes.
abbrev pub IsWellFormed : WlArray → List ℤ → Type 0
IsWellFormed a values = (a.values ≡ some values) × (length values ≡ a.size / 4)

-- `values` goes on as `rest` from the index `i` on.
abbrev From : List ℤ → ℕ → List ℤ → Type 0
From values i rest = (k : ℕ) → get_elem? values (i + k) ≡ get_elem? rest k

-- One round over a whole rectangle.
scan-step :
    (fuel : ℕ) (values : List ℤ) (count i : ℕ) (visible : Bool) (x w h : ℤ)
    → i + 4 ≤ count
    → get_elem? values i ≡ some x
    → get_elem? values (i + 2) ≡ some w
    → get_elem? values (i + 3) ≡ some h
    → scan (suc fuel) values count i visible ≡ (
        if is_end x
        then some visible
        else scan fuel values count (i + 4) ((is_positive w && is_positive h) || visible))
unfolding scan
scan-step fuel values count i visible x w h room ex ew eh = ground arith

-- The last round: less than a rectangle is left.
scan-short :
    (fuel : ℕ) (values rest : List ℤ) (count i : ℕ) (visible : Bool)
    → length rest < 4
    → count ≡ i + length rest
    → From values i rest
    → scan (suc fuel) values count i visible ≡ some visible
unfolding scan
scan-short fuel values [] count i visible short e f = ground arith
scan-short fuel values (x ∷ rest) count i visible short e f = ground (arith, first)
  where
    first : get_elem? values i ≡ some x
    first = ap (get_elem? values) (omega arith) ∙ f 0

scan_lem :
    (fuel : ℕ) (values rest : List ℤ) (count i : ℕ) (visible : Bool)
    → length rest < fuel
    → count ≡ i + length rest
    → From values i rest
    → scan fuel values count i visible ≡ some (has_area rest || visible)
scan_lem zero values rest count i visible lt e f = absurd (omega arith)
scan_lem (suc fuel) values (x ∷ y ∷ w ∷ h ∷ rest) count i visible lt e f =
    scan-step fuel values count i visible x w h (omega arith)
      (ap (get_elem? values) (omega arith) ∙ f 0) (f 2) (f 3)
    ∙ elim (Bool-cases (is_end x)) [
      | inl stop ↦ ground arith
      | inr go ↦ ground (
        arith,
        scan_lem fuel values rest count (i + 4) ((is_positive w && is_positive h) || visible)
            (omega arith) (omega arith)
            (λ k. ap (get_elem? values) (omega arith) ∙ f (4 + k) ∙ rest_at k),
      )
    ]
  where
    rest_at : (k : ℕ) → get_elem? (x ∷ y ∷ w ∷ h ∷ rest) (4 + k) ≡ get_elem? rest k
    rest_at k = get_elem?-append (x ∷ y ∷ w ∷ h ∷ []) rest k
scan_lem (suc fuel) values rest count i visible lt e f =
    scan-short fuel values rest count i visible (omega arith) e f

-- `handle_exposed` reads only inside a well-formed array, comes to an end, and finds a visible
-- surface exactly if some whole rectangle before the end mark has an area.
pub scan_array_lem :
    (a : WlArray) (values : List ℤ)
    → IsWellFormed a values
    → scan_array (some a) ≡ some (has_area values)
unfolding scan_array
scan_array_lem a values (given, size) = rw given (
    scan_lem (suc (a.size / 4)) values values (a.size / 4) 0 false (omega arith) (omega arith)
      (λ k. ap (get_elem? values) (omega arith))
    ∙ ground arith)
