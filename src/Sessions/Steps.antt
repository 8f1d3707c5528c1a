-- ===== src/Sessions/Steps.antt =====
-- Any sequence of events of the UDP sessions of src/server/server.c.
use ctunnel.Prelude.{ℕ, ◌+◌, ◌-◌, ◌^◌, ◌<◌, Bool, List, [], ◌∷◌, length, arith}
use ctunnel.Types.{ServiceConfig}
use ctunnel.Sessions.{
  Session, Peer, Arrival, server_udp_from_external, server_udp_from_client, server_udp_expire,
  next_id,
}
use ctunnel.Sessions.Table.{
  IsPeer, Grown, external-Grown, client_datagram-Grown, server_udp_expire-Grown, next_id-Grown,
}

-- What can happen to the sessions of a peer; a stream of another service takes an id of its own.
pub data Event : Type 0 where
  from_outside : (sent : List ℕ → Bool) → (svc listener now : ℕ) → (arrival : Arrival) → Event
  from_inside : (delivered : Session → List ℕ → Bool) → (payload : List ℕ) → (len now : ℕ) → Event
  time_passes : (now : ℕ) → Event
  stream_begins : Event

module _ (max_service_id window : ℕ) (frame : List ℕ) (cfg : ℕ → ServiceConfig) where
  unfoldable pub step : Peer → Event → Peer
  step p (from_outside sent svc listener now arrival) =
      (server_udp_from_external max_service_id window frame cfg sent p svc listener now
        arrival).after
  step p (from_inside delivered payload len now) =
      (server_udp_from_client max_service_id window frame cfg delivered p payload len now).after
  step p (time_passes now) = server_udp_expire max_service_id window frame cfg now p
  step p stream_begins = record p { next_stream = next_id p.next_stream }

  unfoldable pub run : Peer → List Event → Peer
  run p [] = p
  run p (e ∷ events) = run (step p e) events

  step-Grown : (p : Peer) (e : Event) → IsPeer p → p.next_stream < 2 ^ 64 - 1 → Grown p (step p e)
  unfolding step server_udp_from_client
  step-Grown p (from_outside sent svc listener now arrival) h l =
      external-Grown max_service_id window frame cfg sent p svc listener now arrival h l
  step-Grown p (from_inside delivered payload len now) h l =
      client_datagram-Grown max_service_id window frame cfg delivered p now _ h
  step-Grown p (time_passes now) h l =
      server_udp_expire-Grown max_service_id window frame cfg now p h
  step-Grown p stream_begins h l = next_id-Grown p h l

  -- From a peer whose active sessions are apart and have ids of at most the last one given, any
  -- sequence of events leaves such a peer: no two active sessions have the same id, nor the same
  -- service with the same IPv4 or IPv6 address and port outside, and every id in use is at most the
  -- last one given. The ids that the events may use up stay below the wrap of 64 bits.
  pub run-IsPeer :
      (p : Peer) (events : List Event)
      → IsPeer p
      → p.next_stream + length events < 2 ^ 64
      → IsPeer (run p events)
  unfolding run
  run-IsPeer p [] h l = h
  run-IsPeer p (e ∷ events) h l =
      let g = step-Grown p e h (omega (arith, l)) in
      run-IsPeer (step p e) events g.0 (omega (arith, l, g.2))
