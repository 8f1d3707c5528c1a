-- ===== src/Config/Load/Kept.antt =====
-- What holds of a configuration that `ct_config_load` of src/config/config.c accepts.
use ctunnel.Prelude.{
  ℕ, ◌+◌, ◌<◌, ◌≤◌, ◌≡◌, subst, Bool, not, Option, none, some, List, [], ◌∷◌, ◌==◌, length,
  length-append, arith, inl, inr, Option-cases, either_way, by_test, ◌>>=◌,
}
use ctunnel.CString.{is, split_at, through_last}
use ctunnel.Types.{Config}
use ctunnel.Config.Build.{Build, IsBuild}
use ctunnel.Config.Values.{
  Outcome, done, invalid, unavailable, unknown, trim, cp, Seen, duplicate, too_many, fresh, integer,
  log_parse_level,
}
use ctunnel.Config.Values.Laws.{integer_bounds, cp_fits}
use ctunnel.Config.Options.{set_default_log_file, log_path, log_name}
use ctunnel.Config.Options.Ranges.{Stored, ServiceFits, ConfigFits, set_common-Kept}
use ctunnel.Config.Options.Services.{set_service-Kept}
use ctunnel.Config.Validate.{config_validate}
use ctunnel.Config.Validate.Accepts.{IsRunnable, config_validate_iff}
use ctunnel.Config.Reader.{File, Result, ok}
use ctunnel.Config.Reader.Fuel.{Holds, HoldsAfter, for_lines-Holds}
use ctunnel.Config.Load.{
  defaults, LoadError, Reading, new_service, enter_section, section_line, option_result,
  service_option, common_option, option_line, config_line, Environment, override_level,
  override_pool, bind, override, checked, end_load, start, config_load,
}
use ctunnel.Config.Load.Fits.{
  SeenFits, Fresh, key_seen-Fresh, over-Stored, SameShape, on_last-Stored, bind-Holds,
  length-any_addr, All-snoc,
}

abbrev HoldsSome : {A : Type 0} → (A → Type 0) → Option A → Type 0
HoldsSome P none = Unit {0}
HoldsSome P (some a) = P a

module _ (b : Build) where
  -- The variables of the loop fit their arrays, and the configuration its ranges.
  abbrev pub StateFits : Reading → Type 0
  StateFits st =
      ConfigFits b st.config
      × (length st.section ≤ b.max_service_id)
      × SeenFits 40 st.common_seen
      × SeenFits 16 st.section_seen

  new_service-ServiceFits :
      (c : Config) (name : List ℕ)
      → IsBuild b
      → length name ≤ b.max_service_id
      → ServiceFits b (new_service b c name)
  unfolding new_service
  new_service-ServiceFits c name v h = ground (arith, length-any_addr b)

  defaults-ConfigFits : IsBuild b → ConfigFits b (defaults b)
  unfolding defaults
  defaults-ConfigFits v = ground (arith, length-any_addr b)

  enter_section-Holds :
      (st : Reading) (name : List ℕ)
      → IsBuild b
      → StateFits st
      → length name ≤ b.max_service_id
      → Holds StateFits (enter_section b st name)
  unfolding enter_section
  enter_section-Holds st name v h l =
      either_way (Holds StateFits) (is name "common") (ground (arith, h, l)) (
        by_test (Holds StateFits) (length st.config.services == b.max_services) (λ e. tt)
          (λ e. ground (
            arith,
            h,
            l,
            e,
            length-append st.config.services (new_service b st.config name ∷ []),
            All-snoc (ServiceFits b) st.config.services (new_service b st.config name) h.0.3.1
                (new_service-ServiceFits st.config name v l),
          )))

  section_line-Holds :
      (ln : ℕ) (st : Reading) (o : Option (List ℕ × List ℕ))
      → IsBuild b
      → StateFits st
      → Holds StateFits (section_line b ln st o)
  unfolding section_line
  section_line-Holds ln st none v h = tt
  section_line-Holds ln st (some (name, after)) v h =
      either_way (Holds StateFits) (not (length after == 0)) tt
        (elim (Option-cases (cp (b.max_service_id + 1) name)) [
          | inl e ↦ rw e tt
          | inr (t, e) ↦ rw e (
              enter_section-Holds st t v h (omega (arith, cp_fits (b.max_service_id + 1) name t e)))
        ])

  option_result-Holds :
      (ln : ℕ) (with : Config → Reading) (o : Outcome Config)
      → Stored (ConfigFits b) o
      → ((c : Config) → ConfigFits b c → StateFits (with c))
      → Holds StateFits (option_result ln with o)
  option_result-Holds ln with (done c) h k = k c h
  option_result-Holds ln with invalid h k = tt
  option_result-Holds ln with unavailable h k = tt
  option_result-Holds ln with unknown h k = tt

  service_option-Holds :
      (ln : ℕ) (st : Reading) (k v : List ℕ) (x : Seen)
      → StateFits st
      → Fresh (SeenFits 16) x
      → Holds StateFits (service_option b ln st k v x)
  unfolding service_option
  service_option-Holds ln st k v duplicate h f = tt
  service_option-Holds ln st k v too_many h f = tt
  service_option-Holds ln st k v (fresh seen) h f =
      option_result-Holds ln _ _
        (over-Stored (SameShape (ServiceFits b) st.config.services) (ConfigFits b) _ _
          (on_last-Stored (ServiceFits b) _ st.config.services (λ s p. set_service-Kept b s k v p)
            h.0.3.1)
          (λ services p. (h.0.0, h.0.1, h.0.2, (omega (arith, p.0, h.0.3.0), p.1))))
        (λ c p. (p, h.1, h.2, f))

  common_option-Holds :
      (ln : ℕ) (st : Reading) (k v : List ℕ) (x : Seen)
      → StateFits st
      → Fresh (SeenFits 40) x
      → Holds StateFits (common_option b ln st k v x)
  unfolding common_option
  common_option-Holds ln st k v duplicate h f = tt
  common_option-Holds ln st k v too_many h f = tt
  common_option-Holds ln st k v (fresh seen) h f =
      option_result-Holds ln _ _ (set_common-Kept b st.config k v h.0) (λ c p. (p, h.1, f, h.3))

  option_line-Holds :
      (ln : ℕ) (st : Reading) (o : Option (List ℕ × List ℕ))
      → StateFits st
      → Holds StateFits (option_line b ln st o)
  unfolding option_line
  option_line-Holds ln st none h = tt
  option_line-Holds ln st (some (p, v)) h =
      either_way (Holds StateFits) (length st.section == 0) tt (
        either_way (Holds StateFits) st.svc
          (service_option-Holds ln st (trim p) (trim v) _ h
            (key_seen-Fresh st.section_seen 16 (trim p) h.3))
          (common_option-Holds ln st (trim p) (trim v) _ h
            (key_seen-Fresh st.common_seen 40 (trim p) h.2)))

  -- A line that is accepted leaves the variables of the loop within their arrays and the
  -- configuration within its ranges.
  pub config_line-Holds :
      (ln : ℕ) (p : List ℕ) (st : Reading)
      → IsBuild b
      → StateFits st
      → Holds StateFits (config_line b ln p st)
  unfolding config_line
  config_line-Holds ln [] st v h = h
  config_line-Holds ln (c ∷ p) st v h =
      either_way (Holds StateFits) (c == b'[') (section_line-Holds ln st (split_at b']' p) v h)
        (option_line-Holds ln st (split_at b'=' (c ∷ p)) h)

  start-StateFits : (path : List ℕ) → IsBuild b → StateFits (start b path)
  unfolding start
  start-StateFits path v = ground (arith, defaults-ConfigFits v)

  override_level-Holds :
      (c : Config) (o : Option (List ℕ))
      → ConfigFits b c
      → Holds (ConfigFits b) (override_level b c o)
  unfolding override_level
  override_level-Holds c none h = h
  override_level-Holds c (some v) h = elim (Option-cases (log_parse_level b v)) [
    | inl e ↦ rw (e, Holds) tt
    | inr (l, e) ↦ rw (e, Holds) h
  ]

  override_pool-Holds :
      (c : Config) (o : Option (List ℕ))
      → ConfigFits b c
      → Holds (ConfigFits b) (override_pool b c o)
  unfolding override_pool
  override_pool-Holds c none h = h
  override_pool-Holds c (some v) h = elim (Option-cases (integer v 0 b.max_streams)) [
    | inl e ↦ rw (e, Holds) tt
    | inr (n, e) ↦ rw (e, Holds) (ground (arith, h, integer_bounds v 0 b.max_streams n e))
  ]

  override-Holds :
      (env : Environment) (c : Config) → ConfigFits b c → Holds (ConfigFits b) (override b env c)
  unfolding override
  override-Holds env c h =
      either_way (Holds (ConfigFits b)) b.env_override
        (bind-Holds (ConfigFits b) (ConfigFits b) _ _
          (override_level-Holds c env.ctunnel_log_level h)
          (λ d k. override_pool-Holds d env.ctunnel_pool_count k))
        h

  log_path_fits :
      (mode : ℕ) (dir : Option (List ℕ)) (t : List ℕ)
      → log_path b mode dir ≡ some t
      → length t < b.max_path
  unfolding log_path
  log_path_fits mode none t e = cp_fits b.max_path (log_name b mode) t e
  log_path_fits mode (some dir) t e = ground (arith, e, length-append dir (log_name b mode))

  set_default_log_file-Stored :
      (c : Config) → ConfigFits b c → HoldsSome (ConfigFits b) (set_default_log_file b c)
  unfolding set_default_log_file
  set_default_log_file-Stored c h =
      either_way (HoldsSome (ConfigFits b)) (not (length c.log_file == 0)) h
        (elim (Option-cases (log_path b c.mode (through_last b'/' c.config_path))) [
          | inl e ↦ rw e tt
          | inr (t, e) ↦ rw e (ground (arith, h, log_path_fits c.mode _ t e))
        ])

  module _ (inet_pton : ℕ → List ℕ → Bool) where
    -- A configuration that fits its arrays and can run.
    abbrev pub IsLoaded : Config → Type 0
    IsLoaded c = ConfigFits b c × IsRunnable inet_pton b c

    checked-Holds : (c : Config) → ConfigFits b c → Holds IsLoaded (checked inet_pton b c)
    unfolding checked
    checked-Holds c h = elim (Option-cases (set_default_log_file b c)) [
      | inl e ↦ rw (e, Holds) tt
      | inr (d, e) ↦ elim (Option-cases (config_validate inet_pton b d)) [
        | inl k ↦
            rw (e, k, Holds)
              (
                subst (HoldsSome (ConfigFits b)) e (set_default_log_file-Stored c h),
                (config_validate_iff inet_pton b d).0 k,
              )
        | inr (r, k) ↦ rw (e, k, Holds) tt
      ]
    ]

    end_load-Holds :
        (env : Environment) (broken : Bool) (st : Reading)
        → StateFits st
        → Holds IsLoaded (end_load inet_pton b env broken st)
    unfolding end_load
    end_load-Holds env broken st h = either_way (Holds IsLoaded) broken tt (
        bind-Holds (ConfigFits b) IsLoaded _ _ (override-Holds env st.config h.0)
          (λ d k. checked-Holds d k))

    -- What `ct_config_load` accepts, from any file, path and environment, has every text within its
    -- array, every number within the range of its option, at most as many services as the array
    -- holds, each within its own ranges, and can run in this build: it satisfies all that
    -- `ct_config_validate` asks for; `pool_count` may also be the build's default. The build's limits
    -- are in the ranges of src/Kconfig.
    pub config_load_sound :
        (env : Environment) (path : List ℕ) (file : Option File) (c : Config)
        → IsBuild b
        → config_load inet_pton b env path file ≡ some (ok c)
        → IsLoaded c
    unfolding config_load
    config_load_sound env path none c v e = absurd (cc)
    config_load_sound env path (some file) c v e = subst (HoldsAfter IsLoaded) e (
        after _ (
          for_lines-Holds _ _ _ StateFits (λ ln p st h. config_line-Holds ln p st v h) _ _ file _
            (start-StateFits path v)))
      where
        after :
            (o : Option (Result Reading LoadError))
            → HoldsAfter StateFits o
            → HoldsAfter IsLoaded (o >>= λ r. some (bind r (end_load inet_pton b env file.broken)))
        after none k = tt
        after (some r) k =
            bind-Holds StateFits IsLoaded r _ k (λ st h. end_load-Holds env file.broken st h)
