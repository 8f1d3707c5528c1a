-- ===== src/Auth/Tests.antt =====
-- A few connections and a small table of failures.
use ctunnel.Prelude.{◌≡◌, ◌+◌, ◌≤◌, refl, List, [], ◌∷◌, replicate, arith}
use ctunnel.Prelude.Bytes.{bytes_eq}
use ctunnel.CString.{codes}
use ctunnel.Auth.{
  Rate, auth_rate_slot, scan_rates, take_slot, auth_rate_failed, incoming_for_remote,
}
use ctunnel.Auth.Limits.{connects, goes, run, Limited, run-Limited}
use ctunnel.Auth.Rates.{IsSlotOf, auth_rate_slot-IsSlotOf, cleared}
use ctunnel.Auth.Failures.{after_failures, after_failures-blocks}

-- Three connections from one address, of which the first goes.
run-Limited_example : Limited 4 10 (codes "::1") (
    run 4 10 [] (
      connects 100 7 (codes "::1") (replicate 37 0)
      ∷ connects 101 8 (codes "::1") (replicate 37 0)
      ∷ connects 102 9 (codes "::1") (replicate 37 0)
      ∷ goes 7
      ∷ []))
unfolding incoming_for_remote
run-Limited_example =
    run-Limited 4 10 (codes "::1")
      (connects 100 7 (codes "::1") (replicate 37 0)
        ∷ connects 101 8 (codes "::1") (replicate 37 0)
        ∷ connects 102 9 (codes "::1") (replicate 37 0)
        ∷ goes 7
        ∷ [])
      [] (omega arith, omega arith)

abbrev rates : List Rate
rates =
    record { address = codes "10.0.0.1"; blocked_until = 9000; failures = 2 }
    ∷ record { address = codes "::1"; blocked_until = 4000; failures = 1 }
    ∷ []

-- A full table: the address takes the slot that is blocked for the shortest time.
evicted : (auth_rate_slot 64 rates (codes "::2")).0 ≡ 1
unfolding auth_rate_slot scan_rates take_slot bytes_eq
evicted = refl

-- The sixth failure blocks for no longer than the fifth: 16 seconds.
longest :
    (auth_rate_failed
      (record { address = codes "::1"; blocked_until = 0; failures = 5 })
      1000).blocked_until
    ≡ 17000
unfolding auth_rate_failed
longest = refl

auth_rate_slot-IsSlotOf_example :
    IsSlotOf (codes "::1") rates (auth_rate_slot 64 rates (codes "::1"))
auth_rate_slot-IsSlotOf_example =
    auth_rate_slot-IsSlotOf 64 rates (codes "::1") (omega arith) (omega arith)

-- The third failure of an address, after two others.
after_failures-blocks_example :
    let r' = auth_rate_failed (after_failures (cleared (codes "::1")) (1000 ∷ 3000 ∷ [])) 9000 in
    (r'.failures ≡ 3)
    × (r'.blocked_until ≡ 13000)
    × (9000 + 1000 ≤ r'.blocked_until)
    × (r'.blocked_until ≤ 9000 + 16000)
    × (r'.address ≡ codes "::1")
after_failures-blocks_example =
    after_failures-blocks (cleared (codes "::1")) (1000 ∷ 3000 ∷ []) 9000 (omega arith)
      (omega arith)
