-- ===== src/Auth/Limits.antt =====
-- The connections of src/server/server.c that wait for authentication, in all and by address.
use ctunnel.Prelude.{
  ℕ, zero, suc, ◌+◌, ◌-◌, ◌*◌, ◌%◌, ◌^◌, ◌<◌, ◌≤◌, ◌≡◌, refl, ap, Bool, true, ◌||◌, Option, none,
  some, List, [], ◌∷◌, ◌++◌, leb, ◌==◌, if◌then◌else◌, get_or, set, length, length-append,
  length-set, length-take, take, by_test, arith,
}
use ctunnel.Prelude.Bytes.{bytes_eq, bytes_eq_iff}
use ctunnel.Metrics.{Metrics}
use ctunnel.Auth.{
  Incoming, no_connection, incoming_for_remote, find_incoming, remove_incoming, accept_incoming,
}

-- One for a connection from an address.
abbrev matches : Incoming → (remote : List ℕ) → ℕ
matches c remote = if bytes_eq c.remote remote then 1 else 0

count-append :
    (xs ys : List Incoming) (remote : List ℕ)
    → incoming_for_remote (xs ++ ys) remote
      ≡ incoming_for_remote xs remote + incoming_for_remote ys remote
unfolding incoming_for_remote
count-append [] ys remote = omega arith
count-append (c ∷ xs) ys remote = ground (arith, count-append xs ys remote)

count-set :
    (xs : List Incoming) (i : ℕ) (c : Incoming) (remote : List ℕ)
    → incoming_for_remote (set xs i c) remote ≤ incoming_for_remote xs remote + matches c remote
unfolding incoming_for_remote
count-set [] i c remote = omega arith
count-set (x ∷ xs) zero c remote = ground arith
count-set (x ∷ xs) (suc i) c remote = ground (arith, count-set xs i c remote)

-- What is cut off behind an entry counts that entry.
count-take :
    (k : ℕ) (xs : List Incoming) (remote : List ℕ)
    → k < length xs
    → incoming_for_remote (take k xs) remote + matches (get_or xs k no_connection) remote
      ≤ incoming_for_remote xs remote
unfolding incoming_for_remote
count-take k [] remote h = absurd (omega (arith, h))
count-take zero (x ∷ xs) remote h = ground arith
count-take (suc k) (x ∷ xs) remote h = ground (arith, count-take k xs remote)

-- An entry written over another, or over itself, is still there.
get_or-set_same :
    (xs : List Incoming) (i k : ℕ)
    → get_or (set xs i (get_or xs k no_connection)) k no_connection ≡ get_or xs k no_connection
get_or-set_same xs i k = overwritten xs i k (get_or xs k no_connection) refl
  where
    overwritten :
        (ys : List Incoming) (i k : ℕ) (v : Incoming)
        → get_or ys k no_connection ≡ v
        → get_or (set ys i v) k no_connection ≡ v
    overwritten [] i k v h = h
    overwritten (y ∷ ys) zero zero v h = refl
    overwritten (y ∷ ys) zero (suc k) v h = h
    overwritten (y ∷ ys) (suc i) zero v h = h
    overwritten (y ∷ ys) (suc i) (suc k) v h = overwritten ys i k v h

remove_incoming_bound :
    (incoming : List Incoming) (i : ℕ) (remote : List ℕ)
    → 0 < length incoming
    → incoming_for_remote (remove_incoming incoming i) remote ≤ incoming_for_remote incoming remote
unfolding remove_incoming
remove_incoming_bound incoming i remote h =
    let last = get_or incoming (length incoming - 1) no_connection in
    let cut =
      count-take (length incoming - 1) (set incoming i last) remote
        (omega (arith, h, length-set incoming i last)) in
    let same =
      ap (λ (c : Incoming). matches c remote) (get_or-set_same incoming i (length incoming - 1)) in
    omega (arith, cut, same, count-set incoming i last remote)

same_count :
    (incoming : List Incoming) (from remote : List ℕ)
    → bytes_eq from remote ≡ true
    → incoming_for_remote incoming from ≡ incoming_for_remote incoming remote
same_count incoming from remote e =
    ap (incoming_for_remote incoming) ((bytes_eq_iff from remote).0 e)

-- What happens to the connections: one arrives, or the one of a socket goes.
pub data Change : Type 0 where
  connects : (now fd : ℕ) → (remote : List ℕ) → Metrics → Change
  goes : (fd : ℕ) → Change

module _ (max_incoming handshake_timeout : ℕ) where
  abbrev removed : List Incoming → Option ℕ → List Incoming
  removed incoming none = incoming
  removed incoming (some i) = remove_incoming incoming i

  unfoldable pub step : List Incoming → Change → List Incoming
  step incoming (connects now fd remote m) =
      (accept_incoming max_incoming handshake_timeout now fd remote incoming m).1
  step incoming (goes fd) = removed incoming (find_incoming incoming fd)

  unfoldable pub run : List Incoming → List Change → List Incoming
  run incoming [] = incoming
  run incoming (e ∷ events) = run (step incoming e) events

  -- Within the limits, for one address.
  abbrev pub Limited : (remote : List ℕ) → List Incoming → Type 0
  Limited remote incoming =
      (length incoming ≤ max_incoming) × (incoming_for_remote incoming remote ≤ 2)

  accept_incoming-Limited :
      (remote : List ℕ) (incoming : List Incoming) (now fd : ℕ) (from : List ℕ) (m : Metrics)
      → Limited remote incoming
      → Limited remote (accept_incoming max_incoming handshake_timeout now fd from incoming m).1
  unfolding accept_incoming incoming_for_remote
  accept_incoming-Limited remote incoming now fd from m h =
      by_test (λ (x : Bool × List Incoming × Metrics). Limited remote x.1)
        (length incoming == max_incoming || leb 2 (incoming_for_remote incoming from)) (λ e. h)
        (λ e. ground (
          arith,
          e,
          h,
          length-append incoming (
              record no_connection {
                fd = fd;
                deadline = (now + handshake_timeout * 1000) % 2 ^ 64;
                remote = from;
              }
              ∷ []),
          count-append incoming
              (record no_connection {
                fd = fd;
                deadline = (now + handshake_timeout * 1000) % 2 ^ 64;
                remote = from;
              }
                ∷ [])
              remote,
          same_count incoming from remote,
        ))

  goes-Limited :
      (remote : List ℕ) (incoming : List Incoming) (o : Option ℕ)
      → Limited remote incoming
      → Limited remote (removed incoming o)
  unfolding remove_incoming
  goes-Limited remote incoming none h = h
  goes-Limited remote [] (some i) h = h
  goes-Limited remote (c ∷ incoming) (some i) h = (
    omega (
      arith,
      h.0,
      length-take (length (c ∷ incoming) - 1)
          (set (c ∷ incoming) i (get_or (c ∷ incoming) (length (c ∷ incoming) - 1) no_connection)),
      length-set (c ∷ incoming) i (get_or (c ∷ incoming) (length (c ∷ incoming) - 1) no_connection),
    ),
    omega (arith, h.1, remove_incoming_bound (c ∷ incoming) i remote (omega arith)),
  )

  -- From connections within the limits, whatever arrives and goes leaves them within the limits: no
  -- more than the array holds, and at most two from one address.
  pub run-Limited :
      (remote : List ℕ) (events : List Change) (incoming : List Incoming)
      → Limited remote incoming
      → Limited remote (run incoming events)
  unfolding run step
  run-Limited remote [] incoming h = h
  run-Limited remote (connects now fd from m ∷ events) incoming h =
      run-Limited remote events _ (accept_incoming-Limited remote incoming now fd from m h)
  run-Limited remote (goes fd ∷ events) incoming h =
      run-Limited remote events _ (goes-Limited remote incoming _ h)
