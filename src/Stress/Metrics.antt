-- ===== src/Stress/Metrics.antt =====
-- native/wayland_egl_stress.c, lines 1169 to 1246: samples and their statistics.
use webos_wayland.Base.{
  ℕ, suc, pos, Bool, not, ◌&&◌, ◌||◌, Option, some, List, [], ◌∷◌, ◌++◌, if◌then◌else◌, leb, length,
  get_elem?, ◌>>=◌,
}
use webos_wayland.Egl.{Floats}
use webos_wayland.Egl.Latency.{sum_from}
use webos_wayland.Stress.Timers.{max_samples}

-- `struct metric_stats`
pub record MetricStats (double : Floats) : Type 0 where
  pub count : ℕ
  pub avg : double.F
  pub p50 : double.F
  pub p95 : double.F
  pub p99 : double.F

module _ (double : Floats) where
  open double use {F, decimal, of_int, add, sub, mul, div, lt, to_size}

  -- `percentile` on samples that are sorted already, as a second `qsort` leaves them; `none` is a read
  -- past the samples.
  unfoldable pub percentile : List F → F → Option F
  percentile [] fraction = some (decimal (pos 0) 1)
  percentile (x ∷ xs) fraction =
      get_elem? (x ∷ xs) (to_size (mul (of_int (pos (length xs))) fraction))

  -- `average`
  unfoldable pub average : List F → F
  average [] = decimal (pos 0) 1
  average (x ∷ xs) =
      div (sum_from double (decimal (pos 0) 1) (x ∷ xs)) (of_int (pos (suc (length xs))))

  -- `{0, 0.0, 0.0, 0.0, 0.0}` with a count
  abbrev pub no_stats : ℕ → MetricStats double
  no_stats n = record {
    count = n;
    avg = decimal (pos 0) 1;
    p50 = decimal (pos 0) 1;
    p95 = decimal (pos 0) 1;
    p99 = decimal (pos 0) 1;
  }

  -- lines 1204 to 1207
  unfoldable pub stats_of : (List F → List F) → List F → Option (MetricStats double)
  unfolding percentile average
  stats_of sort values = do
    half ← percentile (sort values) (decimal (pos 50) 2)
    most ← percentile (sort values) (decimal (pos 95) 2)
    all ← percentile (sort values) (decimal (pos 99) 2)
    some (record { count = length values; avg = average values; p50 = half; p95 = most; p99 = all })

  -- `calculate_stats`. `sort` is `qsort` with `compare_double`, `allocated` says that the copy was.
  -- The average is that of the samples before they are sorted.
  unfoldable pub calculate_stats : (List F → List F) → Bool → List F → Option (MetricStats double)
  unfolding stats_of
  calculate_stats sort allocated [] = some (no_stats 0)
  calculate_stats sort allocated (x ∷ xs) =
      if allocated then stats_of sort (x ∷ xs) else some (no_stats (suc (length xs)))

  -- `record_metric`, and `record_cpu_submit` on its own list
  unfoldable pub record_metric : F → F → F → List F → List F
  record_metric warmup now milliseconds samples =
      if lt now warmup || leb max_samples (length samples)
      then samples
      else samples ++ (milliseconds ∷ [])

  -- `benchmark_expired`
  unfoldable pub benchmark_expired : F → F → F → Bool
  benchmark_expired start duration now =
      lt (decimal (pos 0) 1) duration && not (lt (sub now start) duration)
