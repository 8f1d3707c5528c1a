-- ===== src/Metrics/Tests.antt =====
-- The counters on a concrete table.
use ctunnel.Prelude.{◌+◌, ◌≡◌, refl, ◌==◌, ◌&&◌, if◌then◌else◌, min, max, replicate, arith}
use ctunnel.Metrics.{
  Metrics, uint64_max, buffer_bytes_current, buffer_bytes_peak, metric_add, metric_sub, metric_set,
  metric_get,
}
use ctunnel.Metrics.Laws.{IsMetrics, metric_get-metric_add, metrics_kept}

abbrev fresh : Metrics
fresh = replicate 37 0

fresh-IsMetrics : IsMetrics fresh
fresh-IsMetrics = record { size = refl; current_u64 = omega arith; above = omega arith }

metric_get-metric_add_example : metric_get 14 (metric_add 13 500 fresh) ≡ (
    let sum = min (metric_get 13 fresh + 500) uint64_max in
    if 13 == buffer_bytes_current && 14 == buffer_bytes_peak
    then max (metric_get buffer_bytes_peak fresh) sum
    else if 13 == 14
    then sum
    else metric_get 14 fresh)
metric_get-metric_add_example =
    metric_get-metric_add 13 500 14 fresh refl (omega arith) (omega arith) (omega arith)
      (omega arith)

metrics_kept_example :
    IsMetrics (metric_add 13 500 fresh)
    × IsMetrics (metric_sub 13 500 fresh)
    × IsMetrics (metric_set 13 500 fresh)
metrics_kept_example =
    metrics_kept fresh 13 500 fresh-IsMetrics (omega arith) (omega arith) (omega arith)
      (omega arith)
