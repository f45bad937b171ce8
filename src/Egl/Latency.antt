-- ===== src/Egl/Latency.antt =====
-- native/wayland_egl.c, lines 88 to 99 and 405 to 446: the samples of the latency and their report.
use webos_wayland.Base.{
  ℕ, suc, ◌-◌, pos, Bool, Option, none, some, List, [], ◌∷◌, ◌++◌, if◌then◌else◌, leb, length,
  get_elem?, ◌>>=◌,
}
use webos_wayland.Egl.{Floats}

-- EGL_LATENCY_MAX_SAMPLES
abbrev pub latency_max_samples : ℕ
latency_max_samples = 2048

-- The list may be null; what does not fit is dropped.
unfoldable pub latency_record : {A : Type 0} → Option (List A) → A → Option (List A)
latency_record none value = none
latency_record (some values) value =
    if leb latency_max_samples (length values) then some values else some (values ++ (value ∷ []))

-- A line of the report: what `latency_log_metric` prints.
pub data Line (double : Floats) : Type 0 where
  empty : Line double
  -- the count, the average, the three percentiles and the maximum
  stats : ℕ → double.F → double.F → double.F → double.F → double.F → Line double
  -- how many are at least 25 and 40 ms, where the metric is about frame callbacks
  missed : ℕ → ℕ → Line double

module _ (double : Floats) where
  open double use {F, decimal, of_int, add, mul, div, lt, to_size}

  unfoldable pub sum_from : F → List F → F
  sum_from total [] = total
  sum_from total (x ∷ xs) = sum_from (add total x) xs

  -- `x >= limit`; a latency is not a NaN, since the clock gives none.
  unfoldable pub count_at_least : F → List F → ℕ
  count_at_least limit [] = 0
  count_at_least limit (x ∷ xs) =
      let rest = count_at_least limit xs in if lt x limit then rest else suc rest

  -- `copy[(size_t)((count - 1) * fraction)]`; `none` is a read past the samples.
  unfoldable pub at_fraction : F → List F → Option F
  at_fraction fraction sorted =
      get_elem? sorted (to_size (mul (of_int (pos (length sorted - 1))) fraction))

  -- The report on sorted samples.
  unfoldable pub report : Bool → List F → Option (List (Line double))
  unfolding at_fraction sum_from count_at_least
  report is_callback sorted = do
    p50 ← at_fraction (decimal (pos 50) 2) sorted
    p95 ← at_fraction (decimal (pos 95) 2) sorted
    p99 ← at_fraction (decimal (pos 99) 2) sorted
    greatest ← get_elem? sorted (length sorted - 1)
    some (
        stats (length sorted)
          (div (sum_from (decimal (pos 0) 1) sorted) (of_int (pos (length sorted)))) p50 p95 p99
          greatest
        ∷ (if is_callback
            then missed (count_at_least (decimal (pos 250) 1) sorted)
                (count_at_least (decimal (pos 400) 1) sorted)
              ∷ []
            else []))

  -- `latency_log_metric`. `sort` is `qsort` with `latency_compare`, `allocated` says that the copy
  -- was; without it there is no line.
  unfoldable pub log_metric :
      (List F → List F) → Bool → Bool → Option (List F) → Option (List (Line double))
  unfolding report
  log_metric sort allocated is_callback values = elim values [
    | none ↦ some (empty ∷ [])
    | some vs ↦ elim vs [
      | [] ↦ some (empty ∷ [])
      | x ∷ xs ↦ if allocated then report is_callback (sort (x ∷ xs)) else some []
    ]
  ]
