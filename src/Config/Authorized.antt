-- ===== src/Config/Authorized.antt =====
-- The authorized clients of a server: `ct_authorized_load`, `ct_authorized_find` and
-- `ct_authorized_port` of src/config/config.c.
pub mod Lookup
pub mod Entries
pub mod Kept
use ctunnel.Prelude.{
  ℕ, ◌+◌, ◌*◌, ◌-◌, Bool, true, false, not, ◌&&◌, ◌||◌, Option, none, some, ◌>>=◌, List, [], ◌∷◌,
  ◌++◌, leb, ◌==◌, if◌then◌else◌, length, take, drop,
}
use ctunnel.Prelude.Bytes.{bytes_eq}
use ctunnel.CString.{is, codes, split_at}
use ctunnel.Types.{Config, AuthorizedClient, PortRange}
use ctunnel.Config.Build.{Build}
use ctunnel.Config.Values.{
  Outcome, done, invalid, unavailable, unknown, trim, cp, Seen, duplicate, too_many, fresh,
  key_seen, integer, parse_range, address_family_unavailable,
}
use ctunnel.Config.Options.{into}
use ctunnel.Config.Load.{any_addr, on_last, bind}
use ctunnel.Config.Reader.{File, Result, ok, error, for_lines}

-- The messages, each with the line's number or the client's id where it has one.
pub data PolicyError : Type 0 where
  cannot_open too_many_clients id_too_long : PolicyError
  line_too_long expected_client malformed duplicate_key too_many_keys unknown_key invalid_value :
      ℕ → PolicyError
  duplicate_client family_not_compiled incomplete_client : List ℕ → PolicyError

-- The variables of the loop. `a` tells whether the pointer of that name is set; it points to the
-- last client then. `clients` are those of the configuration.
pub record Policy : Type 0 where
  pub clients : List AuthorizedClient
  pub a : Bool
  pub section_seen : List (List ℕ)

-- `ct_authorized_find`, in the clients of a configuration.
unfoldable pub authorized_find : List AuthorizedClient → (id : List ℕ) → Option AuthorizedClient
authorized_find [] id = none
authorized_find (client ∷ clients) id =
    let found = authorized_find clients id in if bytes_eq client.id id then some client else found

-- The loop of `ct_authorized_port`.
unfoldable pub in_ranges : List PortRange → (p : ℕ) → Bool
in_ranges [] p = false
in_ranges (r ∷ ranges) p = leb r.first p && leb p r.last || in_ranges ranges p

unfoldable pub authorized_port : AuthorizedClient → (addr : List ℕ) → (p : ℕ) → Bool
authorized_port a addr p =
    if not (is a.allow_addr "*") && not (bytes_eq a.allow_addr addr)
    then false
    else in_ranges a.ports p

-- A client as its section starts it.
unfoldable pub new_client : Build → Config → (id : List ℕ) → AuthorizedClient
new_client b c id = record {
  id = id;
  public_key = [];
  allow_addr = any_addr b;
  ports = [];
  max_services = c.max_services_per_client;
  max_streams = c.max_streams_per_client;
}

-- Behind the checks on the section's form.
unfoldable pub add_client : Build → Config → Policy → (id : List ℕ) → Result Policy PolicyError
add_client b c st id =
    if length st.clients == b.max_auth_clients
    then error too_many_clients
    else elim (authorized_find st.clients id) [
      | some client ↦ error (duplicate_client id)
      | none ↦ elim (cp (b.max_client_id + 1) id) [
        | none ↦ error id_too_long
        | some text ↦ ok (record {
          clients = st.clients ++ (new_client b c text ∷ []);
          a = true;
          section_seen = [];
        })
      ]
    ]

-- By what `strchr` finds for the bracket that closes the section.
unfoldable pub client_section :
    Build → Config → (ln : ℕ) → Policy → Option (List ℕ × List ℕ) → Result Policy PolicyError
client_section b c ln st none = error (expected_client ln)
client_section b c ln st (some (before, after)) =
    if not (length after == 0) || not (bytes_eq (take 8 before) (codes "[client."))
    then error (expected_client ln)
    else add_client b c st (drop 8 before)

unfoldable pub add_range : Build → AuthorizedClient → (v : List ℕ) → Outcome AuthorizedClient
add_range b a v =
    if length a.ports == b.max_port_ranges
    then invalid
    else into (λ r. record a { ports = a.ports ++ (r ∷ []) }) (parse_range v)

unfoldable pub set_client : Build → AuthorizedClient → (k v : List ℕ) → Outcome AuthorizedClient
set_client b a k v =
    if is k "public_key"
    then into (λ t. record a { public_key = t }) (cp b.max_path v)
    else if is k "allow_bind_addr"
    then into (λ t. record a { allow_addr = t }) (cp (b.max_addr + 1) v)
    else if is k "allow_remote_port"
    then add_range b a v
    else if is k "max_services"
    then into (λ n. record a { max_services = n }) (integer v 1 b.max_services)
    else if is k "max_streams"
    then into (λ n. record a { max_streams = n }) (integer v 1 b.max_streams)
    else unknown

abbrev pub client_result :
    (ln : ℕ)
    → (List AuthorizedClient → Policy)
    → Outcome (List AuthorizedClient)
    → Result Policy PolicyError
client_result ln with (done clients) = ok (with clients)
client_result ln with invalid = error (invalid_value ln)
client_result ln with unavailable = error (invalid_value ln)
client_result ln with unknown = error (unknown_key ln)

-- By what `key_seen` returns.
unfoldable pub client_option :
    Build → (ln : ℕ) → Policy → (k v : List ℕ) → Seen → Result Policy PolicyError
client_option b ln st k v duplicate = error (duplicate_key ln)
client_option b ln st k v too_many = error (too_many_keys ln)
client_option b ln st k v (fresh seen) =
    client_result ln (λ clients. record st { clients = clients; section_seen = seen })
      (on_last (λ a. set_client b a k v) st.clients)

-- By what `strchr` finds for the equals sign. "allow_remote_port" may repeat.
unfoldable pub client_pair :
    Build → (ln : ℕ) → Policy → Option (List ℕ × List ℕ) → Result Policy PolicyError
client_pair b ln st none = error (malformed ln)
client_pair b ln st (some (p, v)) =
    if not st.a
    then error (malformed ln)
    else client_option b ln st (trim p) (trim v) (
        if is (trim p) "allow_remote_port"
        then fresh st.section_seen
        else key_seen st.section_seen 4 (trim p))

-- The body of the loop, for a trimmed line that is not empty and no comment.
unfoldable pub client_line :
    Build → Config → (ln : ℕ) → (p : List ℕ) → Policy → Result Policy PolicyError
client_line b c ln [] st = ok st
client_line b c ln (x ∷ p) st =
    if x == b'['
    then client_section b c ln st (split_at b']' (x ∷ p))
    else client_pair b ln st (split_at b'=' (x ∷ p))

-- The loop behind the file.
unfoldable pub check_clients :
    (inet_pton : ℕ → List ℕ → Bool) → Build → List AuthorizedClient → Option PolicyError
check_clients inet_pton b [] = none
check_clients inet_pton b (a ∷ clients) =
    let rest = check_clients inet_pton b clients in
    if not (address_family_unavailable inet_pton b a.allow_addr == 0)
    then some (family_not_compiled a.id)
    else if length a.public_key == 0 || length a.ports == 0
    then some (incomplete_client a.id)
    else rest

-- Behind the file.
unfoldable pub end_clients :
    (inet_pton : ℕ → List ℕ → Bool) → Build → Config → Policy → Result Config PolicyError
end_clients inet_pton b c st = elim (check_clients inet_pton b st.clients) [
  | none ↦ ok (record c { clients = st.clients })
  | some e ↦ error e
]

-- `file` is what `open_policy_file` opens.
unfoldable pub authorized_load :
    (inet_pton : ℕ → List ℕ → Bool)
    → Build
    → Config
    → (file : Option File) → Option (Result Config PolicyError)
authorized_load inet_pton b c none = some (error cannot_open)
authorized_load inet_pton b c (some file) = do
  r ←
      for_lines (b.max_path * 2 - 1) line_too_long (client_line b c) (length file.bytes + 1) 0 file
        (record { clients = c.clients; a = false; section_seen = [] })
  some (bind r (end_clients inet_pton b c))
