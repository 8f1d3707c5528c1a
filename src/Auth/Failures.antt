-- ===== src/Auth/Failures.antt =====
-- The entry of an address after repeated failures: `auth_rate_failed` of src/server/server.c.
use ctunnel.Prelude.{
  ℕ, zero, suc, inl, inr, ◌+◌, ◌*◌, ◌%◌, ◌^◌, ◌<◌, ◌≤◌, ◌≡◌, refl, ap, ◌∙◌, ◌⊎◌, List, [], ◌∷◌,
  length, min, arith,
}
use ctunnel.Auth.{Rate, auth_rate_failed}

-- An entry after failures at the times of a list.
unfoldable pub after_failures : Rate → (times : List ℕ) → Rate
after_failures r [] = r
after_failures r (now ∷ times) = after_failures (auth_rate_failed r now) times

-- One failure: the count stops at five.
one_failure :
    (r : Rate) (now : ℕ)
    → r.failures ≤ 5
    → ((auth_rate_failed r now).failures ≡ min 5 (r.failures + 1))
      × ((auth_rate_failed r now).address ≡ r.address)
unfolding auth_rate_failed
one_failure r now h = (ground arith, refl)

after_failures_lem :
    (times : List ℕ) (r : Rate)
    → r.failures ≤ 5
    → ((after_failures r times).failures ≡ min 5 (r.failures + length times))
      × ((after_failures r times).address ≡ r.address)
unfolding after_failures
after_failures_lem [] r h = (omega arith, refl)
after_failures_lem (now ∷ times) r h =
    let (count, address) = one_failure r now h in
    let (all, kept) = after_failures_lem times (auth_rate_failed r now) (omega (arith, count)) in
    (omega (arith, all, count), kept ∙ address)

-- The values of the exponent.
power : (n : ℕ) → n ≤ 5 → ((n ≡ 0) × (2 ^ n ≡ 1)) ⊎ ((1 ≤ n) × (2 ≤ 2 ^ n) × (2 ^ n ≤ 32))
power zero h = inl (refl, refl)
power (suc zero) h = inr (omega arith, omega arith, omega arith)
power (suc (suc zero)) h = inr (omega arith, omega arith, omega arith)
power (suc (suc (suc zero))) h = inr (omega arith, omega arith, omega arith)
power (suc (suc (suc (suc zero)))) h = inr (omega arith, omega arith, omega arith)
power (suc (suc (suc (suc (suc zero))))) h = inr (omega arith, omega arith, omega arith)
power (suc (suc (suc (suc (suc (suc n)))))) h = absurd (omega arith)

-- The block of a failure: half a second, doubled for every failure counted.
block :
    (r : Rate) (now n : ℕ)
    → (auth_rate_failed r now).failures ≡ n
    → n ≤ 5
    → now + 16000 < 2 ^ 64
    → (auth_rate_failed r now).blocked_until ≡ now + 500 * 2 ^ n
unfolding auth_rate_failed
block r now n e h l = ap (λ (k : ℕ). (now + 2 ^ k * 500) % 2 ^ 64) e ∙ omega (arith, power n h, l)

-- However often an address has failed before, the next failure, at `now`, blocks it until half a
-- second, doubled once for each of its failures and five times at most, has passed: that is at
-- least a second and at most 16. The entry stays the address's. The clock does
-- not wrap, and the entry counts five failures at most.
pub after_failures-blocks :
    (r : Rate) (times : List ℕ) (now : ℕ)
    → r.failures ≤ 5
    → now + 16000 < 2 ^ 64
    → let n = min 5 (r.failures + length times + 1) in
      let r' = auth_rate_failed (after_failures r times) now in
      (r'.failures ≡ n)
      × (r'.blocked_until ≡ now + 500 * 2 ^ n)
      × (now + 1000 ≤ r'.blocked_until)
      × (r'.blocked_until ≤ now + 16000)
      × (r'.address ≡ r.address)
after_failures-blocks r times now h l =
    let (all, kept) = after_failures_lem times r h in
    let (count, address) = one_failure (after_failures r times) now (omega (arith, all)) in
    let counted : (auth_rate_failed (after_failures r times) now).failures
        ≡ min 5 (r.failures + length times + 1) =
      omega (arith, count, all) in
    let until = block (after_failures r times) now _ counted (omega arith) l in
    (
      counted,
      until,
      omega (arith, until, power (min 5 (r.failures + length times + 1)) (omega arith)),
      omega (arith, until, power (min 5 (r.failures + length times + 1)) (omega arith)),
      address ∙ kept,
    )
