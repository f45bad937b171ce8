-- ===== src/Egl/Percentiles.antt =====
-- The report of native/wayland_egl.c reads no sample that is not there.
use webos_wayland.Base.{
  ℕ, zero, suc, ◌-◌, ◌≤◌, ◌<◌, ◌≡◌, refl, pos, Bool, true, false, Option, none, some, List, [], ◌∷◌,
  length, get_elem?, arith, is_some,
}
use webos_wayland.Egl.{Floats}
use webos_wayland.Egl.Latency.{log_metric, report, at_fraction, latency_max_samples}
use webos_wayland.Egl.Bounds.{count}

module _ (double : Floats) where
  open double use {F, decimal, of_int, mul, to_size}

  -- A fraction of an index is at most that index, as it is for 0.50, 0.95 and 0.99.
  abbrev pub IsFraction : F → Type 0
  IsFraction x = (n : ℕ) → n < latency_max_samples → to_size (mul (of_int (pos n)) x) ≤ n

  get_elem?-is_some :
      {A : Type 0} (l : List A) (i : ℕ) → i < length l → is_some (get_elem? l i) ≡ true
  get_elem?-is_some [] i h = elim h [ ]
  get_elem?-is_some (x ∷ xs) zero h = refl
  get_elem?-is_some (x ∷ xs) (suc i) h = get_elem?-is_some xs i (omega arith)

  at_fraction-is_some :
      (x : F) (l : List F)
      → 0 < length l
      → length l ≤ latency_max_samples
      → IsFraction x
      → is_some (at_fraction double x l) ≡ true
  unfolding at_fraction
  at_fraction-is_some x l h fits small =
      get_elem?-is_some l (to_size (mul (of_int (pos (length l - 1))) x))
        (omega (arith, small (length l - 1) (omega arith)))

  -- On samples that fit into their list, with a `qsort` that keeps their number, the report is made
  -- without a read past the samples, where each of its fractions of an index is at most that index.
  pub log_metric-is_some :
      (sort : List F → List F) (allocated is_callback : Bool) (values : Option (List F))
      → ((l : List F) → length (sort l) ≡ length l)
      → count values ≤ latency_max_samples
      → IsFraction (decimal (pos 50) 2)
      → IsFraction (decimal (pos 95) 2)
      → IsFraction (decimal (pos 99) 2)
      → is_some (log_metric double sort allocated is_callback values) ≡ true
  unfolding log_metric report
  log_metric-is_some sort allocated is_callback none keeps fits half most all = refl
  log_metric-is_some sort allocated is_callback (some []) keeps fits half most all = refl
  log_metric-is_some sort false is_callback (some (x ∷ xs)) keeps fits half most all = refl
  log_metric-is_some sort true is_callback (some (x ∷ xs)) keeps fits half most all =
      let l = sort (x ∷ xs) in
      let h : 0 < length l = omega (arith, keeps (x ∷ xs)) in
      let small : length l ≤ latency_max_samples = omega (arith, fits, keeps (x ∷ xs)) in
      ground (
        arith,
        at_fraction-is_some (decimal (pos 50) 2) l h small half,
        at_fraction-is_some (decimal (pos 95) 2) l h small most,
        at_fraction-is_some (decimal (pos 99) 2) l h small all,
        get_elem?-is_some l (length l - 1),
      )
