-- ===== src/Replay/Tests.antt =====
-- The window on concrete sequences.
use ctunnel.Prelude.{◌≡◌, refl, [], ◌∷◌, arith}
use ctunnel.Replay.{start, slide, udp_replay_accept, accept_work_sequence}
use ctunnel.Replay.History.{
  Judged, run, start-Tracks, udp_replay_accept_lem, accept_work_sequence_lem,
}

-- Numbers out of order, repeated and too old.
repeated : run 64 start [] (5 ∷ 3 ∷ 5 ∷ 3 ∷ 80 ∷ 4 ∷ 17 ∷ 16 ∷ 0 ∷ []) ≡ 17 ∷ 80 ∷ 3 ∷ 5 ∷ []
unfolding run udp_replay_accept start slide
repeated = refl

udp_replay_accept_lem_example : Judged 64 start [] 9 (udp_replay_accept 64 start 9)
udp_replay_accept_lem_example = udp_replay_accept_lem 64 start [] 9 (omega arith) start-Tracks

accept_work_sequence_lem_example : Judged 64 start [] 9 (accept_work_sequence start 9)
accept_work_sequence_lem_example = accept_work_sequence_lem start [] 9 start-Tracks
