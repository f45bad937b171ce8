-- ===== src/Stress/Range.antt =====
-- The size of the stress client stays in its range.
use webos_wayland.Base.{
  ℕ, ◌≤◌, ◌≡◌, subst, ℤ, pos, ◌≤ℤ◌, ltb_ℤ, Bool, false, ◌||◌, Option, none, some, String, str_eq,
  arith, Bool-cases, Option-cases, inl, inr,
}
use webos_wayland.Stress.Setup.{Parsed, parse_positive_env, preset_size, resize, parse_resolution}

-- A size within 16 and 8192 on both sides.
pub record InRange (size : ℤ × ℤ) : Type 0 where
  pub wide : pos 16 ≤ℤ size.0
  pub narrow : size.0 ≤ℤ pos 8192
  pub high : pos 16 ≤ℤ size.1
  pub low : size.1 ≤ℤ pos 8192

fixed : (w h : ℕ) → (16 ≤ w) × (w ≤ 8192) × (16 ≤ h) × (h ≤ 8192) → InRange (pos w, pos h)
fixed w h (a, b, c, d) = record {
  wide = omega (arith, a);
  narrow = omega (arith, b);
  high = omega (arith, c);
  low = omega (arith, d);
}

the-size : {s t : ℤ × ℤ} → some s ≡ some t → s ≡ t
the-size h = cc

preset_size-InRange : (name : String) {size : ℤ × ℤ} → preset_size name ≡ some size → InRange size
unfolding preset_size
preset_size-InRange name h = elim (Bool-cases (str_eq name "720p")) [
  | inl a ↦
      subst InRange (the-size (rw (preset_size, a) at h))
        (fixed 1280 720 (omega arith, omega arith, omega arith, omega arith))
  | inr a ↦ elim (Bool-cases (str_eq name "1080p")) [
    | inl b ↦
        subst InRange (the-size (rw (preset_size, a, b) at h))
          (fixed 1920 1080 (omega arith, omega arith, omega arith, omega arith))
    | inr b ↦ elim (Bool-cases (str_eq name "1440p")) [
      | inl c ↦
          subst InRange (the-size (rw (preset_size, a, b, c) at h))
            (fixed 2560 1440 (omega arith, omega arith, omega arith, omega arith))
      | inr c ↦ elim (Bool-cases (str_eq name "4k" || str_eq name "2160p")) [
        | inl d ↦
            subst InRange (the-size (rw (preset_size, a, b, c, d) at h))
              (fixed 3840 2160 (omega arith, omega arith, omega arith, omega arith))
        | inr d ↦ let q = rw (preset_size, a, b, c, d) at h in cc
      ]
    ]
  ]
]

module _ (strtol : String → Parsed) where
  taken-range :
      (v lo hi : ℤ) (t u : Bool)
      → (t || u || ltb_ℤ v lo || ltb_ℤ hi v) ≡ false
      → (lo ≤ℤ v) × (v ≤ℤ hi)
  taken-range v lo hi t u h = (ground arith, ground arith)

  -- Whatever `strtol` gives, the number is the fallback or in the range.
  pub parse_positive_env-range :
      (value : Option String) (fallback lo hi : ℤ)
      → lo ≤ℤ fallback
      → fallback ≤ℤ hi
      → (lo ≤ℤ parse_positive_env strtol value fallback lo hi)
        × (parse_positive_env strtol value fallback lo hi ≤ℤ hi)
  unfolding parse_positive_env
  parse_positive_env-range none fallback lo hi l h = (l, h)
  parse_positive_env-range (some text) fallback lo hi l h = elim (Bool-cases (str_eq text "")) [
    | inl e ↦ rw (parse_positive_env, e) (l, h)
    | inr e ↦
        let p = strtol text in
        elim (Bool-cases (p.is_empty || p.has_rest || ltb_ℤ p.value lo || ltb_ℤ hi p.value)) [
          | inl bad ↦ rw (parse_positive_env, e, bad) (l, h)
          | inr good ↦
              rw (parse_positive_env, e, good)
                (taken-range p.value lo hi p.is_empty p.has_rest good)
        ]
  ]

  resize-InRange :
      (width height : Option String) (size : ℤ × ℤ)
      → InRange size
      → InRange (resize strtol width height size)
  resize-InRange width height (w, h) r =
      let (a, b) = parse_positive_env-range width w (pos 16) (pos 8192) r.wide r.narrow in
      let (c, d) = parse_positive_env-range height h (pos 16) (pos 8192) r.high r.low in
      record { wide = a; narrow = b; high = c; low = d }

  -- From a size in the range, `parse_resolution` that does not fail leaves a size in the range, whatever
  -- the variables are and whatever `strtol` makes of them.
  pub parse_resolution-InRange :
      (preset width height : Option String) (size : ℤ × ℤ) {size' : ℤ × ℤ}
      → InRange size
      → parse_resolution strtol preset width height size ≡ some size'
      → InRange size'
  unfolding parse_resolution
  parse_resolution-InRange none width height size r h =
      subst InRange (the-size h) (resize-InRange width height size r)
  parse_resolution-InRange (some name) width height size r h =
      elim (Option-cases (preset_size name)) [
        | inl e ↦ let q = rw (parse_resolution, e) at h in cc
        | inr (other, e) ↦
            subst InRange (the-size (rw (parse_resolution, e) at h))
              (resize-InRange width height other (preset_size-InRange name e))
      ]
