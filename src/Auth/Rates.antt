-- ===== src/Auth/Rates.antt =====
-- The slot that an address gets in the table of failed authentications of src/server/server.c.
use ctunnel.Prelude.{
  ℕ, suc, ◌+◌, ◌-◌, ◌<◌, ◌≤◌, ◌≡◌, ◌≢◌, ◌⊎◌, refl, ap, sym, subst, inl, inr, Bool, true, false,
  Option, none, some, List, [], ◌∷◌, ltb, ◌==◌, if◌then◌else◌, get_or, set, length, take_all,
  by_test, All, arith,
}
use ctunnel.Prelude.Bytes.{bytes_eq, bytes_eq_iff}
use ctunnel.Auth.{
  Rate, no_rate, Slot, known, unknown, or_index, chosen, scan_rates, take_slot, auth_rate_slot,
}

-- What the rounds of the loop from `i` on find: an entry of the address, or a slot below `n`.
abbrev pub Found : (address : List ℕ) → (i n : ℕ) → List Rate → Slot → Type 0
Found address i n rates (known j) =
    (i ≤ j) × (j < n) × (bytes_eq (get_or rates (j - i) no_rate).address address ≡ true)
Found address i n rates (unknown j) =
    (j < n) × All (λ (r : Rate). bytes_eq r.address address ≡ false) rates

Found-step :
    (address : List ℕ) (i n : ℕ) (r : Rate) (rates : List Rate) (x : Slot)
    → bytes_eq r.address address ≡ false
    → Found address (i + 1) n rates x
    → Found address i n (r ∷ rates) x
Found-step address i n r rates (known j) h f =
    let e : j - i ≡ suc (j - (i + 1)) = omega (arith, f.0) in
    (
      omega (arith, f.0),
      f.1,
      subst (λ (k : ℕ). bytes_eq (get_or (r ∷ rates) k no_rate).address address ≡ true) (sym e) f.2,
    )
Found-step address i n r rates (unknown j) h f = (f.0, (h, f.1))

or_index_bound :
    (b : Bool) (empty : Option ℕ) (i oldest oldest' n : ℕ)
    → chosen empty oldest < n
    → i < n
    → oldest' < n
    → chosen (if b then or_index empty i else empty) oldest' < n
or_index_bound true (some j) i oldest oldest' n k l o = k
or_index_bound true none i oldest oldest' n k l o = l
or_index_bound false (some j) i oldest oldest' n k l o = k
or_index_bound false none i oldest oldest' n k l o = o

oldest_bound : (b : Bool) (i oldest n : ℕ) → i < n → oldest < n → (if b then i else oldest) < n
oldest_bound true i oldest n h k = h
oldest_bound false i oldest n h k = k

scan_rates_lem :
    (address : List ℕ) (rates : List Rate) (i n : ℕ) (empty : Option ℕ) (oldest until : ℕ)
    → i + length rates ≡ n
    → chosen empty oldest < n
    → oldest < n
    → Found address i n rates (scan_rates address i empty oldest until rates)
unfolding scan_rates
scan_rates_lem address [] i n empty oldest until e k o = (k, tt)
scan_rates_lem address (r ∷ rates) i n empty oldest until e k o =
    let below : i < n = omega (arith, e) in
    let later = oldest_bound (ltb r.blocked_until until) i oldest n below o in
    by_test (Found address i n (r ∷ rates)) (bytes_eq r.address address)
      (λ same. (omega arith, below, here same))
      (λ other. Found-step address i n r rates _ other (
        scan_rates_lem address rates (i + 1) n _ _ _ (omega (arith, e))
          (or_index_bound (length r.address == 0) empty i oldest _ n k below later) later))
  where
    here :
        bytes_eq r.address address ≡ true
        → bytes_eq (get_or (r ∷ rates) (i - i) no_rate).address address ≡ true
    here same =
        let e : i - i ≡ 0 = omega arith in
        subst (λ (k : ℕ). bytes_eq (get_or (r ∷ rates) k no_rate).address address ≡ true) (sym e)
          same

-- The entry of an address that has not failed yet.
abbrev pub cleared : (address : List ℕ) → Rate
cleared address = record { address = address; blocked_until = 0; failures = 0 }

-- What `auth_rate_slot` promises of an address, by the slot and the table that it leaves: a table as
-- before with a slot that is the address's, or one that no entry of the address was in, as before but
-- for the slot, which is cleared for it.
abbrev pub IsSlotOf : (address : List ℕ) → (rates : List Rate) → ℕ × List Rate → Type 0
IsSlotOf address rates x =
    (x.0 < length rates)
    × (((x.1 ≡ rates) × ((get_or rates x.0 no_rate).address ≡ address))
        ⊎ (All (λ (r : Rate). r.address ≢ address) rates × (x.1 ≡ set rates x.0 (cleared address))))

others :
    (address : List ℕ) (rates : List Rate)
    → All (λ (r : Rate). bytes_eq r.address address ≡ false) rates
    → All (λ (r : Rate). r.address ≢ address) rates
others address [] h = tt
others address (r ∷ rates) h =
    (λ e. absurd (cc (h.0, (bytes_eq_iff r.address address).1 e)), others address rates h.1)

take_slot-IsSlotOf :
    (max_addr : ℕ) (address : List ℕ) (rates : List Rate) (x : Slot)
    → length address ≤ max_addr
    → Found address 0 (length rates) rates x
    → IsSlotOf address rates (take_slot max_addr address rates x)
unfolding take_slot
take_slot-IsSlotOf max_addr address rates (known i) l f =
    let e : i - 0 ≡ i = omega arith in
    (
      f.1,
      inl (
        refl,
        (bytes_eq_iff (get_or rates i no_rate).address address).0
            (subst (λ (k : ℕ). bytes_eq (get_or rates k no_rate).address address ≡ true) e f.2),
      ),
    )
take_slot-IsSlotOf max_addr address rates (unknown i) l f = (
  f.0,
  inr (
    others address rates f.1,
    ap (λ (t : List ℕ). set rates i (cleared t)) (take_all max_addr address l),
  ),
)

-- In a table that is not empty, an address gets a slot of its own: its entry, in the table as it was,
-- or, if no entry is the address's, a slot with the address, no failure and no block, and the other
-- entries as they were. The address fits its array.
pub auth_rate_slot-IsSlotOf :
    (max_addr : ℕ) (rates : List Rate) (address : List ℕ)
    → 0 < length rates
    → length address ≤ max_addr
    → IsSlotOf address rates (auth_rate_slot max_addr rates address)
unfolding auth_rate_slot
auth_rate_slot-IsSlotOf max_addr rates address h l =
    take_slot-IsSlotOf max_addr address rates _ l
      (scan_rates_lem address rates 0 (length rates) none 0 _ (omega arith) h h)
