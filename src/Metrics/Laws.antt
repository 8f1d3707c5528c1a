-- ===== src/Metrics/Laws.antt =====
-- What the counters read after an update.
use ctunnel.Prelude.{
  ℕ, zero, suc, ◌+◌, ◌-◌, ◌%◌, ◌^◌, ◌≤◌, ◌<◌, min, max, ◌≡◌, refl, ◌∙◌, ◌≢◌, ◌==◌, ◌&&◌, false,
  List, [], ◌∷◌, ltb, leb, if◌then◌else◌, get_or, set, length, length-set, arith,
}
use ctunnel.Metrics.{
  Metrics, metric_count, uint64_max, buffer_bytes_current, buffer_bytes_peak, track_peak,
  metric_add, metric_sub, metric_set, metric_get,
}

get_or-set :
    (m : List ℕ) (i j v : ℕ)
    → i < length m
    → get_or (set m i v) j 0 ≡ (if i == j then v else get_or m j 0)
get_or-set [] i j v h = absurd (omega arith)
get_or-set (x ∷ m) zero zero v h = refl
get_or-set (x ∷ m) zero (suc j) v h = ground arith
get_or-set (x ∷ m) (suc i) zero v h = ground arith
get_or-set (x ∷ m) (suc i) (suc j) v h = ground (arith, get_or-set m i j v)

-- The 37 counters, each a `uint64_t`, and the peak at the buffered bytes or above them.
pub record IsMetrics (m : Metrics) : Type 0 where
  pub size : length m ≡ metric_count
  pub current_u64 : get_or m buffer_bytes_current 0 < 2 ^ 64
  pub above : get_or m buffer_bytes_current 0 ≤ get_or m buffer_bytes_peak 0

-- The counter `id` takes the value `v`.
module _ (m : Metrics) (size : length m ≡ metric_count) (id v : ℕ) (known : id < metric_count) where
  length-track_peak : length (track_peak id (set m id v)) ≡ metric_count
  unfolding track_peak
  length-track_peak = ground (
    arith,
    length-set m id v,
    length-set (set m id v) buffer_bytes_peak (get_or (set m id v) buffer_bytes_current 0),
  )

  pub get_or-track_peak :
      (j : ℕ)
      → get_or (track_peak id (set m id v)) j 0 ≡ (
          if id == buffer_bytes_current && j == buffer_bytes_peak
          then max (get_or m buffer_bytes_peak 0) v
          else if id == j
          then v
          else get_or m j 0)
  unfolding track_peak
  get_or-track_peak j = ground (
    arith,
    get_or-set m id j v,
    get_or-set m id buffer_bytes_current v,
    get_or-set m id buffer_bytes_peak v,
    get_or-set (set m id v) buffer_bytes_peak j (get_or (set m id v) buffer_bytes_current 0),
    length-set m id v,
  )

saturated :
    (a b : ℕ)
    → a < 2 ^ 64
    → b < 2 ^ 64
    → (if ltb ((a + b) % 2 ^ 64) a then uint64_max else (a + b) % 2 ^ 64) ≡ min (a + b) uint64_max
saturated a b ha hb = ground arith

-- Adding saturates at UINT64_MAX, and changes no other counter but the peak, which follows the
-- buffered bytes when those are the counter.
pub metric_get-metric_add :
    (id value j : ℕ) (m : Metrics)
    → length m ≡ metric_count
    → id < metric_count
    → j < metric_count
    → get_or m id 0 < 2 ^ 64
    → value < 2 ^ 64
    → metric_get j (metric_add id value m) ≡ (
        let sum = min (metric_get id m + value) uint64_max in
        if id == buffer_bytes_current && j == buffer_bytes_peak
        then max (metric_get buffer_bytes_peak m) sum
        else if id == j
        then sum
        else metric_get j m)
unfolding metric_add metric_get
metric_get-metric_add id value j m size known known' small value_small = ground (
  arith,
  saturated (get_or m id 0) value small value_small,
  get_or-track_peak m size id (min (get_or m id 0 + value) uint64_max) known j,
)

-- Every update of a counter keeps the 37 counters and the peak above the buffered bytes, where it does
-- not write the peak itself.
module _ (m : Metrics) (v : IsMetrics m) (id value : ℕ) (known : id < metric_count)
    (other : id ≢ buffer_bytes_peak) where
  pub track_peak-IsMetrics : value < 2 ^ 64 → IsMetrics (track_peak id (set m id value))
  track_peak-IsMetrics h = record {
    size = length-track_peak m v.size id value known;
    current_u64 =
        ground
          (arith, v.current_u64, get_or-track_peak m v.size id value known buffer_bytes_current);
    above = ground (
      arith,
      v.above,
      get_or-track_peak m v.size id value known buffer_bytes_current,
      get_or-track_peak m v.size id value known buffer_bytes_peak,
    );
  }

  lowered : (v' : ℕ) → v' ≤ get_or m id 0 → IsMetrics (set m id v')
  lowered v' h = record {
    size = length-set m id v' ∙ v.size;
    current_u64 = ground (arith, v.current_u64, v.size, get_or-set m id buffer_bytes_current v');
    above = ground (
      arith,
      v.above,
      v.size,
      get_or-set m id buffer_bytes_current v',
      get_or-set m id buffer_bytes_peak v',
    );
  }

-- Adding to a counter, subtracting from it and setting it each keep the 37 counters, with the buffered
-- bytes in 64 bits and never above their recorded peak, as long as the caller leaves the peak's own
-- counter alone.
pub metrics_kept :
    (m : Metrics) (id value : ℕ)
    → IsMetrics m
    → id < metric_count
    → id ≢ buffer_bytes_peak
    → get_or m id 0 < 2 ^ 64
    → value < 2 ^ 64
    → IsMetrics (metric_add id value m)
      × IsMetrics (metric_sub id value m)
      × IsMetrics (metric_set id value m)
unfolding metric_add metric_sub metric_set
metrics_kept m id value v known other small h = (
  rw (leb_known, saturated (get_or m id 0) value small h)
      (track_peak-IsMetrics m v id (min (get_or m id 0 + value) uint64_max) known other
        (ground arith)),
  rw leb_known (
      lowered m v id value known other
        (if ltb value (get_or m id 0) then get_or m id 0 - value else 0) (ground arith)),
  rw leb_known (track_peak-IsMetrics m v id value known other h),
)
  where
    leb_known : leb metric_count id ≡ false
    leb_known = ground arith
