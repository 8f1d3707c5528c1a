-- ===== src/Config/Authorized/Entries.antt =====
-- The options of an authorized client, against the arrays and ranges of src/config/config.c.
use ctunnel.Prelude.{
  ℕ, ◌+◌, ◌<◌, ◌≤◌, ◌≡◌, refl, ap, sym, subst, List, [], ◌∷◌, ◌==◌, length, length-append, All,
  All-append, arith, either_way, by_test,
}
use ctunnel.CString.{is}
use ctunnel.Types.{AuthorizedClient}
use ctunnel.Config.Build.{Build}
use ctunnel.Config.Values.{Outcome, done, invalid, unavailable, unknown, cp, integer, parse_range}
use ctunnel.Config.Values.Laws.{integer_bounds, cp_fits, IsRange, parse_range-IsRange}
use ctunnel.Config.Options.Ranges.{Within, Stored, into-Stored}
use ctunnel.Config.Load.{on_last}
use ctunnel.Config.Load.Fits.{SeenFits, SameShape, over-Stored, on_last-Stored}
use ctunnel.Config.Reader.Fuel.{Holds}
use ctunnel.Config.Authorized.{Policy, add_range, set_client, client_result}
use ctunnel.Config.Authorized.Lookup.{Unique, ids}

module _ (b : Build) where
  -- A client's texts fit their arrays, its ranges are ports and fit theirs, and its limits are in the
  -- ranges of their options.
  abbrev pub ClientFits : AuthorizedClient → Type 0
  ClientFits a =
      (length a.id ≤ b.max_client_id)
      × (length a.public_key < b.max_path)
      × (length a.allow_addr ≤ b.max_addr)
      × (length a.ports ≤ b.max_port_ranges)
      × Within 1 b.max_services a.max_services
      × Within 1 b.max_streams a.max_streams
      × All IsRange a.ports

  -- The clients fit their array, each as above, no two of the same id.
  abbrev pub PolicyFits : List AuthorizedClient → Type 0
  PolicyFits clients =
      (length clients ≤ b.max_auth_clients) × Unique (ids clients) × All ClientFits clients

  abbrev pub StateFits : Policy → Type 0
  StateFits st = PolicyFits st.clients × SeenFits 4 st.section_seen

  add_range-Stored :
      (a : AuthorizedClient) (v : List ℕ) → ClientFits a → Stored ClientFits (add_range b a v)
  unfolding add_range
  add_range-Stored a v h =
      by_test (Stored ClientFits) (length a.ports == b.max_port_ranges) (λ e. tt)
        (λ e. into-Stored ClientFits _ (parse_range v) (λ r k. ground (
          arith,
          h,
          e,
          length-append a.ports (r ∷ []),
          All-append IsRange a.ports (r ∷ []) h.6 (parse_range-IsRange v r k, tt),
        )))

  set_client-Stored :
      (a : AuthorizedClient) (k v : List ℕ) → ClientFits a → Stored ClientFits (set_client b a k v)
  unfolding set_client
  set_client-Stored a k v h =
      either_way (Stored ClientFits) (is k "public_key")
        (into-Stored ClientFits _ (cp b.max_path v)
          (λ t e. ground (arith, h, cp_fits b.max_path v t e)))
        (either_way (Stored ClientFits) (is k "allow_bind_addr")
          (into-Stored ClientFits _ (cp (b.max_addr + 1) v)
            (λ t e. ground (arith, h, cp_fits (b.max_addr + 1) v t e)))
          (either_way (Stored ClientFits) (is k "allow_remote_port") (add_range-Stored a v h) (
            either_way (Stored ClientFits) (is k "max_services")
              (into-Stored ClientFits _ (integer v 1 b.max_services)
                (λ n e. ground (arith, h, integer_bounds v 1 b.max_services n e)))
              (either_way (Stored ClientFits) (is k "max_streams")
                (into-Stored ClientFits _ (integer v 1 b.max_streams)
                  (λ n e. ground (arith, h, integer_bounds v 1 b.max_streams n e)))
                tt))))

  -- No option changes the id.
  set_client-id :
      (a : AuthorizedClient) (k v : List ℕ)
      → Stored (λ (x : AuthorizedClient). x.id ≡ a.id) (set_client b a k v)
  unfolding set_client add_range
  set_client-id a k v =
      either_way Same (is k "public_key") (into-Stored _ _ (cp b.max_path v) (λ t e. refl)) (
        either_way Same (is k "allow_bind_addr")
          (into-Stored _ _ (cp (b.max_addr + 1) v) (λ t e. refl))
          (either_way Same (is k "allow_remote_port")
            (either_way Same (length a.ports == b.max_port_ranges) tt
              (into-Stored _ _ (parse_range v) (λ r e. refl)))
            (either_way Same (is k "max_services")
              (into-Stored _ _ (integer v 1 b.max_services) (λ n e. refl))
              (either_way Same (is k "max_streams")
                (into-Stored _ _ (integer v 1 b.max_streams) (λ n e. refl)) tt))))
    where
      Same : Outcome AuthorizedClient → Type 0
      Same o = Stored (λ (x : AuthorizedClient). x.id ≡ a.id) o

  on_last-ids :
      (f : AuthorizedClient → Outcome AuthorizedClient) (clients : List AuthorizedClient)
      → ((a : AuthorizedClient) → Stored (λ (x : AuthorizedClient). x.id ≡ a.id) (f a))
      → Stored (λ (xs : List AuthorizedClient). ids xs ≡ ids clients) (on_last f clients)
  unfolding on_last
  on_last-ids f [] h = tt
  on_last-ids f (a ∷ []) h =
      over-Stored (λ (x : AuthorizedClient). x.id ≡ a.id)
        (λ (xs : List AuthorizedClient). ids xs ≡ a.id ∷ []) _ (f a) (h a)
        (λ x e. ap (λ (k : List ℕ). k ∷ []) e)
  on_last-ids f (a ∷ y ∷ clients) h =
      over-Stored (λ (xs : List AuthorizedClient). ids xs ≡ ids (y ∷ clients))
        (λ (xs : List AuthorizedClient). ids xs ≡ ids (a ∷ y ∷ clients)) _ _
        (on_last-ids f (y ∷ clients) h) (λ xs e. ap (a.id ∷◌) e)

  -- Both of what holds of a result.
  both-Stored :
      {A : Type 0} (P Q : A → Type 0) (o : Outcome A)
      → Stored P o
      → Stored Q o
      → Stored (λ (a : A). P a × Q a) o
  both-Stored P Q (done a) h k = (h, k)
  both-Stored P Q invalid h k = tt
  both-Stored P Q unavailable h k = tt
  both-Stored P Q unknown h k = tt

  pub client_result-Holds :
      (ln : ℕ) (with : List AuthorizedClient → Policy) (o : Outcome (List AuthorizedClient))
      → Stored PolicyFits o
      → ((clients : List AuthorizedClient) → PolicyFits clients → StateFits (with clients))
      → Holds StateFits (client_result ln with o)
  client_result-Holds ln with (done clients) h k = k clients h
  client_result-Holds ln with invalid h k = tt
  client_result-Holds ln with unavailable h k = tt
  client_result-Holds ln with unknown h k = tt

  pub set_last-Stored :
      (clients : List AuthorizedClient) (k v : List ℕ)
      → PolicyFits clients
      → Stored PolicyFits (on_last (λ a. set_client b a k v) clients)
  set_last-Stored clients k v h = weaken _ (
      both-Stored (SameShape ClientFits clients)
        (λ (xs : List AuthorizedClient). ids xs ≡ ids clients) _
        (on_last-Stored ClientFits _ clients (λ a f. set_client-Stored a k v f) h.2)
        (on_last-ids _ clients (λ a. set_client-id a k v)))
    where
      weaken :
          (o : Outcome (List AuthorizedClient))
          → Stored
              (λ (xs : List AuthorizedClient).
                SameShape ClientFits clients xs × (ids xs ≡ ids clients))
              o
          → Stored PolicyFits o
      weaken (done xs) w = (omega (arith, w.0.0, h.0), subst Unique (sym w.1) h.1, w.0.1)
      weaken invalid w = tt
      weaken unavailable w = tt
      weaken unknown w = tt
