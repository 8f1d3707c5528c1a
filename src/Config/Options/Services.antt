-- ===== src/Config/Options/Services.antt =====
-- The options of a service, against the ranges and arrays of src/config/config.c.
use ctunnel.Prelude.{ℕ, ◌+◌, ◌&&◌, ◌||◌, List, arith, either_way}
use ctunnel.CString.{is}
use ctunnel.Types.{ServiceConfig}
use ctunnel.Config.Build.{Build}
use ctunnel.Config.Values.{
  Outcome, done, invalid, unavailable, unknown, over, cp, integer, port, enc,
}
use ctunnel.Config.Values.Laws.{integer_bounds, port_bounds, cp_fits}
use ctunnel.Config.Options.{set_type, set_proxy, set_udp, set_feature, set_service}
use ctunnel.Config.Options.Ranges.{ServiceFits, Stored, into-Stored}

module _ (b : Build) where
  abbrev Fits : ServiceConfig → Type 0
  Fits s = ServiceFits b s

  abbrev Kept : Outcome ServiceConfig → Type 0
  Kept o = Stored Fits o

  enc-Kept :
      (set : ℕ → ServiceConfig) (o : Outcome ℕ) → ((n : ℕ) → Fits (set n)) → Kept (over set o)
  enc-Kept set (done e) h = h e
  enc-Kept set invalid h = tt
  enc-Kept set unavailable h = tt
  enc-Kept set unknown h = tt

  set_type-Kept : (s : ServiceConfig) (v : List ℕ) → Fits s → Kept (set_type b s v)
  unfolding set_type
  set_type-Kept s v h = either_way Kept (is v "tcp") h (
      either_way Kept (is v "udp") (either_way Kept b.udp h tt)
        (either_way Kept (is v "http") h (either_way Kept (is v "https") h tt)))

  set_proxy-Kept : (s : ServiceConfig) (v : List ℕ) → Fits s → Kept (set_proxy b s v)
  unfolding set_proxy
  set_proxy-Kept s v h = either_way Kept (is v "off") h (
      either_way Kept (is v "v1") (either_way Kept b.proxy_protocol_v1 h tt)
        (either_way Kept (is v "v2") (either_way Kept b.proxy_protocol_v2 h tt) tt))

  set_udp-Kept : (s : ServiceConfig) (k v : List ℕ) → Fits s → Kept (set_udp b s k v)
  unfolding set_udp
  set_udp-Kept s k v h =
      either_way Kept (is k "udp_idle_timeout")
        (into-Stored Fits _ (integer v 1 86400)
          (λ n e. ground (arith, h, integer_bounds v 1 86400 n e)))
        (either_way Kept (is k "udp_reply_timeout")
          (into-Stored Fits _ (integer v 1 86400)
            (λ n e. ground (arith, h, integer_bounds v 1 86400 n e)))
          (either_way Kept (is k "udp_max_sessions")
            (into-Stored Fits _ (integer v 1 b.max_udp_sessions)
              (λ n e. ground (arith, h, integer_bounds v 1 b.max_udp_sessions n e)))
            (either_way Kept (is k "udp_max_datagram_size")
              (into-Stored Fits _ (integer v 512 b.max_udp_datagram)
                (λ n e. ground (arith, h, integer_bounds v 512 b.max_udp_datagram n e)))
              tt)))

  set_feature-Kept : (s : ServiceConfig) (k v : List ℕ) → Fits s → Kept (set_feature b s k v)
  unfolding set_feature
  set_feature-Kept s k v h =
      either_way Kept (b.proxy_protocol && is k "proxy_protocol") (set_proxy-Kept s v h) (
        either_way Kept (b.proxy_protocol && is k "proxy_protocol_tlv")
          (either_way Kept (is v "off") h tt)
          (either_way Kept b.udp (set_udp-Kept s k v h) (
            either_way Kept
              (is k "udp_idle_timeout"
                || is k "udp_reply_timeout"
                || is k "udp_max_sessions"
                || is k "udp_max_datagram_size")
              tt tt)))

  -- An option that `set_service` accepts leaves the service within its arrays and ranges.
  pub set_service-Kept : (s : ServiceConfig) (k v : List ℕ) → Fits s → Kept (set_service b s k v)
  unfolding set_service
  set_service-Kept s k v h = either_way Kept (is k "type") (set_type-Kept s v h) (
      either_way Kept (is k "remote_addr")
        (into-Stored Fits _ (cp (b.max_addr + 1) v)
          (λ t e. ground (arith, h, cp_fits (b.max_addr + 1) v t e)))
        (either_way Kept (is k "local_addr")
          (into-Stored Fits _ (cp (b.max_addr + 1) v)
            (λ t e. ground (arith, h, cp_fits (b.max_addr + 1) v t e)))
          (either_way Kept (is k "remote_port")
            (into-Stored Fits _ (port v) (λ n e. ground (arith, h, port_bounds v n e)))
            (either_way Kept (is k "local_port")
              (into-Stored Fits _ (port v) (λ n e. ground (arith, h, port_bounds v n e)))
              (either_way Kept (is k "data_encryption") (enc-Kept _ (enc b v) (λ e. h))
                (set_feature-Kept s k v h))))))
