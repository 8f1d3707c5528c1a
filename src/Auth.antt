-- ===== src/Auth.antt =====
-- src/server/server.c: connections that have not authenticated yet, and the rate limit on failed
-- authentication. The handshake that a connection carries is left out.
pub mod Limits
pub mod Rates
pub mod Failures
mod Tests
use ctunnel.Prelude.{
  ℕ, zero, suc, ◌+◌, ◌-◌, ◌*◌, ◌%◌, ◌^◌, Bool, true, false, not, ◌&&◌, ◌||◌, Option, none, some,
  List, [], ◌∷◌, ◌++◌, ltb, leb, ◌==◌, if◌then◌else◌, get_or, set, length, take,
}
use ctunnel.Prelude.Bytes.{bytes_eq}
use ctunnel.Metrics.{Metrics, metric_inc}

abbrev pub connections_accepted_total : ℕ
connections_accepted_total = 0

abbrev pub connections_rejected_total : ℕ
connections_rejected_total = 1

abbrev pub resource_limit_rejections_total : ℕ
resource_limit_rejections_total = 17

-- `incoming_conn`
pub record Incoming : Type 0 where
  pub fd : ℕ
  pub waiting_for_auth : Bool
  pub deadline : ℕ
  pub read_retry_after_ms : ℕ
  pub remote : List ℕ

abbrev pub no_connection : Incoming
no_connection = record {
  fd = 0;
  waiting_for_auth = false;
  deadline = 0;
  read_retry_after_ms = 0;
  remote = [];
}

unfoldable pub find_incoming : List Incoming → (fd : ℕ) → Option ℕ
find_incoming [] fd = none
find_incoming (c ∷ incoming) fd =
    if c.fd == fd
    then some 0
    else elim (find_incoming incoming fd) [ none ↦ none | some i ↦ some (suc i) ]

unfoldable pub incoming_for_remote : List Incoming → (remote : List ℕ) → ℕ
incoming_for_remote [] remote = 0
incoming_for_remote (c ∷ incoming) remote =
    let matches = incoming_for_remote incoming remote in
    if bytes_eq c.remote remote then matches + 1 else matches

-- The last connection takes the place of the one at `index`.
unfoldable pub remove_incoming : List Incoming → (index : ℕ) → List Incoming
remove_incoming incoming index =
    take (length incoming - 1)
      (set incoming index (get_or incoming (length incoming - 1) no_connection))

-- A connection that `ct_net_accept` returns, in the loop of `ct_run_server`; false for one that is
-- closed at once.
unfoldable pub accept_incoming :
    (max_incoming handshake_timeout now fd : ℕ)
    → (remote : List ℕ) → List Incoming
    → Metrics
    → Bool × List Incoming × Metrics
accept_incoming max_incoming handshake_timeout now fd remote incoming m =
    let counted = metric_inc connections_accepted_total m in
    if length incoming == max_incoming || leb 2 (incoming_for_remote incoming remote)
    then (
      false,
      incoming,
      metric_inc resource_limit_rejections_total (metric_inc connections_rejected_total counted),
    )
    else (
      true,
      incoming
          ++ (record no_connection {
            fd = fd;
            deadline = (now + handshake_timeout * 1000) % 2 ^ 64;
            remote = remote;
          }
              ∷ []),
      counted,
    )

-- `auth_rate`
pub record Rate : Type 0 where
  pub address : List ℕ
  pub blocked_until : ℕ
  pub failures : ℕ

abbrev pub no_rate : Rate
no_rate = record { address = []; blocked_until = 0; failures = 0 }

-- Where the loop of `auth_rate_slot` ends: at the entry of the address, or behind the table with a
-- slot to take.
pub data Slot : Type 0 where
  known : (i : ℕ) → Slot
  unknown : (i : ℕ) → Slot

abbrev pub or_index : Option ℕ → ℕ → Option ℕ
or_index (some j) i = some j
or_index none i = some i

abbrev pub chosen : Option ℕ → (oldest : ℕ) → ℕ
chosen (some i) oldest = i
chosen none oldest = oldest

-- The loop from `i` on. `until` is `blocked_until` of the oldest entry.
unfoldable pub scan_rates :
    (address : List ℕ) → (i : ℕ) → (empty : Option ℕ) → (oldest until : ℕ) → List Rate → Slot
scan_rates address i empty oldest until [] = unknown (chosen empty oldest)
scan_rates address i empty oldest until (r ∷ rates) =
    let empty' = if length r.address == 0 then or_index empty i else empty in
    let later = ltb r.blocked_until until in
    let rest =
      scan_rates address (i + 1) empty' (if later then i else oldest)
        (if later then r.blocked_until else until) rates in
    if bytes_eq r.address address then known i else rest

-- The entry's index, and the table; `max_addr` is CT_MAX_ADDR.
unfoldable pub take_slot : (max_addr : ℕ) → (address : List ℕ) → List Rate → Slot → ℕ × List Rate
take_slot max_addr address rates (known i) = (i, rates)
take_slot max_addr address rates (unknown i) =
    (i, set rates i (record no_rate { address = take max_addr address }))

unfoldable pub auth_rate_slot : (max_addr : ℕ) → List Rate → (address : List ℕ) → ℕ × List Rate
auth_rate_slot max_addr rates address =
    take_slot max_addr address rates
      (scan_rates address 0 none 0 (get_or rates 0 no_rate).blocked_until rates)

unfoldable pub auth_rate_failed : Rate → (now : ℕ) → Rate
auth_rate_failed r now =
    let failures = if ltb r.failures 5 then r.failures + 1 else r.failures in
    record r { failures = failures; blocked_until = (now + 2 ^ failures * 500) % 2 ^ 64 }
