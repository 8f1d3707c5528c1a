-- ===== src/Config/Authorized/Kept.antt =====
-- What holds of the clients that `ct_authorized_load` of src/config/config.c accepts.
use ctunnel.Prelude.{ℕ, ◌≡◌, ◌≢◌, Bool, List, length, All}
use ctunnel.Types.{Config, AuthorizedClient}
use ctunnel.Config.Build.{Build}
use ctunnel.Config.Values.{address_family_unavailable}
use ctunnel.Config.Authorized.Entries.{PolicyFits}

module _ (b : Build) where
  module _ (inet_pton : ℕ → List ℕ → Bool) where
    -- A client that can be told from others and has something to open.
    abbrev pub IsComplete : AuthorizedClient → Type 0
    IsComplete a =
        (address_family_unavailable inet_pton b a.allow_addr ≡ 0)
        × (length a.public_key ≢ 0)
        × (length a.ports ≢ 0)

    -- What `ct_authorized_load` may leave behind in a configuration.
    abbrev pub IsPolicyOf : (c d : Config) → Type 0
    IsPolicyOf c d =
        (d ≡ record c { clients = d.clients }) × PolicyFits b d.clients × All IsComplete d.clients
