-- ===== src/Metrics.antt =====
-- src/util/metrics.c: counters that saturate, and the peak of the buffered bytes.
pub mod Laws
mod Tests
use ctunnel.Prelude.{ℕ, ◌+◌, ◌-◌, ◌%◌, ◌^◌, ◌==◌, List, ltb, leb, if◌then◌else◌, get_or, set}

-- `g_metrics`, by the value of `ct_metric_id`.
abbrev pub Metrics : Type 0
Metrics = List ℕ

abbrev pub metric_count : ℕ
metric_count = 37

abbrev pub uint64_max : ℕ
uint64_max = 2 ^ 64 - 1

abbrev pub buffer_bytes_current : ℕ
buffer_bytes_current = 13

abbrev pub buffer_bytes_peak : ℕ
buffer_bytes_peak = 14

unfoldable pub update_peak : (current_id peak_id : ℕ) → Metrics → Metrics
update_peak current_id peak_id m =
    if ltb (get_or m peak_id 0) (get_or m current_id 0)
    then set m peak_id (get_or m current_id 0)
    else m

-- After the counter is written.
unfoldable pub track_peak : (id : ℕ) → Metrics → Metrics
unfolding update_peak
track_peak id m =
    if id == buffer_bytes_current then update_peak buffer_bytes_current buffer_bytes_peak m else m

unfoldable pub metric_add : (id value : ℕ) → Metrics → Metrics
metric_add id value m =
    if leb metric_count id
    then m
    else (let old = get_or m id 0 in
        let sum = (old + value) % 2 ^ 64 in
        track_peak id (set m id (if ltb sum old then uint64_max else sum)))

unfoldable pub metric_inc : (id : ℕ) → Metrics → Metrics
metric_inc id m = metric_add id 1 m

unfoldable pub metric_sub : (id value : ℕ) → Metrics → Metrics
metric_sub id value m =
    if leb metric_count id
    then m
    else set m id (if ltb value (get_or m id 0) then get_or m id 0 - value else 0)

unfoldable pub metric_dec : (id : ℕ) → Metrics → Metrics
metric_dec id m = metric_sub id 1 m

unfoldable pub metric_set : (id value : ℕ) → Metrics → Metrics
metric_set id value m = if leb metric_count id then m else track_peak id (set m id value)

unfoldable pub metric_get : (id : ℕ) → Metrics → ℕ
metric_get id m = if ltb id metric_count then get_or m id 0 else 0
