-- ===== src/Sessions/Table.antt =====
-- The table of UDP sessions of src/server/server.c under each of its operations.
use ctunnel.Prelude.{
  ℕ, ◌+◌, ◌-◌, ◌^◌, ◌<◌, ◌≤◌, ◌≡◌, ◌⊎◌, inl, inr, refl, Bool, true, false, not, Option, none, some,
  List, [], ◌∷◌, ◌==◌, get_or, set, take, All, arith, either_way, Bool-cases, ◌≢◌,
}
use ctunnel.Types.{Endpoint, ServiceConfig}
use ctunnel.Datagram.{Datagram}
use ctunnel.Replay.{Window}
use ctunnel.Metrics.{Metrics}
use ctunnel.Sessions.{
  Session, no_session, Peer, Handled, Arrival, receive_failed, nothing_there, datagram, serves,
  server_udp_find, next_id, new_session, server_udp_place, server_udp_create, forward,
  external_session, touch_sent, external_with, server_udp_from_external, deliver, client_with,
  client_datagram, expire_from, server_udp_expire,
}
use ctunnel.Sessions.Apart.{
  not_equal-SamePlace, SamePlace, Far, Apart, All-set, All-update, All-map, set-Apart, SameKey,
  update-Apart, index_of-none, All-both,
}

-- The ids in use are at most the last one that was given.
abbrev pub IdBelow : (n : ℕ) → Session → Type 0
IdBelow n s = (s.active ≡ false) ⊎ (s.id ≤ n)

abbrev pub IsPeer : Peer → Type 0
IsPeer p = Apart p.udp × All (IdBelow p.next_stream) p.udp

-- A sound peer that has given at most one more id.
abbrev pub Grown : (p q : Peer) → Type 0
Grown p q = IsPeer q × (p.next_stream ≤ q.next_stream) × (q.next_stream ≤ p.next_stream + 1)

pub next_id_lem : (n : ℕ) → n < 2 ^ 64 - 1 → next_id n ≡ n + 1
unfolding next_id
next_id_lem n h = ground (arith, h)

new_session-Far :
    (n svc : ℕ) (peer : Endpoint) (listener now : ℕ) (t : Session)
    → IdBelow n t
    → serves svc peer t ≡ false
    → Far (new_session (n + 1) svc peer listener now) t
unfolding new_session serves
new_session-Far n svc peer listener now t b f = elim b [
  | inl idle ↦ inr (inl idle)
  | inr below ↦ elim told_apart [
    | inl idle ↦ inr (inl idle)
    | inr other ↦ inr (inr (λ e. omega (arith, e, below), other))
  ]
]
  where
    told_apart : (t.active ≡ false) ⊎ ((svc ≢ t.svc) ⊎ (¬ SamePlace peer t.peer))
    told_apart = elim (Bool-cases t.active) [
      | inr idle ↦ inl idle
      | inl active ↦ elim (Bool-cases (t.svc == svc)) [
        | inr other ↦ inr (inl (λ e. ground (arith, other, e)))
        | inl same ↦ inr (inr (not_equal-SamePlace t.peer peer (ground (arith, f, active, same))))
      ]
    ]

-- Another id may be given while the sessions stay.
pub next_id-Grown :
    (p : Peer)
    → IsPeer p
    → p.next_stream < 2 ^ 64 - 1
    → Grown p (record p { next_stream = next_id p.next_stream })
next_id-Grown p h l =
    rw (next_id_lem p.next_stream l)
      ((h.0, All-map _ _ p.udp (λ t b. ground (arith, b)) h.1), omega arith, omega arith)

server_udp_place-Grown :
    (p : Peer) (svc : ℕ) (peer : Endpoint) (listener now : ℕ) (o : Option ℕ)
    → IsPeer p
    → p.next_stream < 2 ^ 64 - 1
    → server_udp_find svc peer p.udp ≡ none
    → Grown p (server_udp_place p svc peer listener now o).1
unfolding server_udp_place server_udp_find new_session
server_udp_place-Grown p svc peer listener now none h l f = (h, omega arith, omega arith)
server_udp_place-Grown p svc peer listener now (some i) h l f = rw (next_id_lem p.next_stream l) (
  (
    set-Apart p.udp i _ h.0 (
        All-both _ _ _ p.udp (λ t b e. new_session-Far p.next_stream svc peer listener now t b e)
          h.1 (index_of-none _ p.udp f)),
    All-set _ p.udp i _ (All-map _ _ p.udp (λ t b. ground (arith, b)) h.1) (inr (omega arith)),
  ),
  omega arith,
  omega arith,
)

update-IsPeer :
    (p : Peer) (i : ℕ) (s : Session)
    → SameKey (get_or p.udp i no_session) s
    → IsPeer p
    → IsPeer (record p { udp = set p.udp i s })
update-IsPeer p i s k h = (
  update-Apart p.udp i s k h.0,
  All-update (IdBelow p.next_stream) p.udp i no_session s h.1 (λ b. ground (arith, b, k)),
)

forward-Grown :
    (sent : List ℕ → Bool) (p q : Peer) (size : ℕ) (o : Option (List ℕ × ℕ))
    → Grown p q
    → Grown p (forward sent q size o).after
unfolding forward
forward-Grown sent p q size none h = h
forward-Grown sent p q size (some (f, n)) h =
    either_way (λ (x : Handled). Grown p x.after) (not (sent (take n f))) h h

module _ (max_service_id window : ℕ) (frame : List ℕ) (cfg : ℕ → ServiceConfig) where
  server_udp_create-Grown :
      (p : Peer) (svc : ℕ) (peer : Endpoint) (listener now : ℕ)
      → IsPeer p
      → p.next_stream < 2 ^ 64 - 1
      → server_udp_find svc peer p.udp ≡ none
      → Grown p (server_udp_create cfg p svc peer listener now).1
  unfolding server_udp_create
  server_udp_create-Grown p svc peer listener now h l f =
      either_way (λ (x : Option ℕ × Peer). Grown p x.1) _ (h, omega arith, omega arith)
        (server_udp_place-Grown p svc peer listener now _ h l f)

  chosen-Grown :
      (p : Peer) (svc : ℕ) (peer : Endpoint) (listener now : ℕ) (o : Option ℕ)
      → IsPeer p
      → p.next_stream < 2 ^ 64 - 1
      → server_udp_find svc peer p.udp ≡ o
      → Grown p (external_session max_service_id window frame cfg p svc peer listener now o).1
  unfolding external_session
  chosen-Grown p svc peer listener now none h l e =
      server_udp_create-Grown p svc peer listener now h l e
  chosen-Grown p svc peer listener now (some i) h l e = (h, omega arith, omega arith)

  external_with-Grown :
      (sent : List ℕ → Bool) (p : Peer) (svc : ℕ) (peer : Endpoint) (payload : List ℕ) (now : ℕ)
      (x : Option ℕ × Peer)
      → Grown p x.1
      → Grown p (external_with max_service_id window frame cfg sent svc peer payload now x).after
  unfolding external_with touch_sent
  external_with-Grown sent p svc peer payload now (none, q) h = h
  external_with-Grown sent p svc peer payload now (some i, q) h =
      forward-Grown sent p _ _ _ (update-IsPeer q i _ (refl, refl, refl, refl) h.0, h.1, h.2)

  pub external-Grown :
      (sent : List ℕ → Bool) (p : Peer) (svc listener now : ℕ) (a : Arrival)
      → IsPeer p
      → p.next_stream < 2 ^ 64 - 1
      → Grown p
          (server_udp_from_external max_service_id window frame cfg sent p svc listener now a).after
  unfolding server_udp_from_external
  external-Grown sent p svc listener now receive_failed h l = (h, omega arith, omega arith)
  external-Grown sent p svc listener now nothing_there h l = (h, omega arith, omega arith)
  external-Grown sent p svc listener now (datagram peer payload) h l =
      either_way (λ (x : Handled). Grown p x.after) _ (h, omega arith, omega arith)
        (external_with-Grown sent p svc peer payload now _
          (chosen-Grown p svc peer listener now _ h l refl))

  deliver-Grown :
      (delivered : Session → List ℕ → Bool) (p : Peer) (i now : ℕ) (payload : List ℕ)
      (x : Bool × Window)
      → IsPeer p
      → Grown p (deliver max_service_id window frame cfg delivered p i now payload x).after
  unfolding deliver
  deliver-Grown delivered p i now payload (false, rx) h = (h, omega arith, omega arith)
  deliver-Grown delivered p i now payload (true, rx) h =
      either_way (λ (x : Handled). Grown p x.after) _ (kept, omega arith, omega arith)
        (kept, omega arith, omega arith)
    where
      kept : IsPeer (record p {
        udp = set p.udp i (record (get_or p.udp i no_session) { rx = rx; last_ms = now });
      })
      kept = update-IsPeer p i _ (refl, refl, refl, refl) h

  client_with-Grown :
      (delivered : Session → List ℕ → Bool) (p : Peer) (now : ℕ) (d : Datagram) (o : Option ℕ)
      → IsPeer p
      → Grown p (client_with max_service_id window frame cfg delivered p now d o).after
  unfolding client_with
  client_with-Grown delivered p now d none h = (h, omega arith, omega arith)
  client_with-Grown delivered p now d (some i) h =
      either_way (λ (x : Handled). Grown p x.after) _ (h, omega arith, omega arith)
        (deliver-Grown delivered p i now d.payload _ h)

  pub client_datagram-Grown :
      (delivered : Session → List ℕ → Bool) (p : Peer) (now : ℕ) (o : Option Datagram)
      → IsPeer p
      → Grown p (client_datagram max_service_id window frame cfg delivered p now o).after
  unfolding client_datagram
  client_datagram-Grown delivered p now none h = (h, omega arith, omega arith)
  client_datagram-Grown delivered p now (some d) h =
      either_way (λ (x : Handled). Grown p x.after) (not (d.direction == 1))
        (h, omega arith, omega arith) (found _)
    where
      found :
          (o : Option ℕ)
          → Grown p (client_with max_service_id window frame cfg delivered p now d o).after
      found o = client_with-Grown delivered p now d o h

  expire_from-All :
      (P : Session → Type 0) (now : ℕ) (udp : List Session) (m : Metrics)
      → P no_session
      → All P udp
      → All P (expire_from max_service_id window frame cfg now udp m).0
  unfolding expire_from
  expire_from-All P now [] m k h = tt
  expire_from-All P now (s ∷ udp) m k h = (either_way P _ k h.0, expire_from-All P now udp _ k h.1)

  expire_from-Apart :
      (now : ℕ) (udp : List Session) (m : Metrics)
      → Apart udp
      → Apart (expire_from max_service_id window frame cfg now udp m).0
  unfolding expire_from
  expire_from-Apart now [] m h = tt
  expire_from-Apart now (s ∷ udp) m h = (
    expire_from-All _ now udp _ (inr (inl refl)) (
        either_way (λ (t : Session). All (Far t) udp) _
          (All-map (Far s) (Far no_session) udp (λ t f. inl refl) h.0) h.0),
    expire_from-Apart now udp _ h.1,
  )

  pub server_udp_expire-Grown :
      (now : ℕ) (p : Peer)
      → IsPeer p
      → Grown p (server_udp_expire max_service_id window frame cfg now p)
  unfolding server_udp_expire
  server_udp_expire-Grown now p h = (
    (
      expire_from-Apart now p.udp p.metrics h.0,
      expire_from-All (IdBelow p.next_stream) now p.udp p.metrics (inl refl) h.1,
    ),
    omega arith,
    omega arith,
  )
