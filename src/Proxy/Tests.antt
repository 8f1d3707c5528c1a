-- ===== src/Proxy/Tests.antt =====
-- The headers of an IPv4 connection and of one through a dual-stack socket.
use ctunnel.Prelude.{ℕ, ◌≡◌, refl, true, some, List, ◌∷◌, length, take, replicate, arith}
use ctunnel.Types.{Endpoint, StreamMetadata}
use ctunnel.Proxy.{normalize_pair, build_v2}
use ctunnel.Proxy.Header.{v2_bytes, build_v2_layout}

abbrev from : Endpoint
from = record { family = 4; addr = 192 ∷ 0 ∷ 2 ∷ 1 ∷ replicate 12 0; port = 40000 }

abbrev to : Endpoint
to = record { family = 4; addr = 198 ∷ 51 ∷ 100 ∷ 7 ∷ replicate 12 0; port = 443 }

abbrev metadata : StreamMetadata
metadata = record { proxy_protocol = 2; source = from; destination = to }

pair : normalize_pair metadata ≡ some (from, to)
unfolding normalize_pair
pair = refl

build_v2_layout_example :
    (b : List ℕ) × (build_v2 true (replicate 64 0) 64 metadata ≡ some (b, 28))
    × (length b ≡ 64)
    × (take 28 b ≡ v2_bytes from to)
build_v2_layout_example =
    build_v2_layout (replicate 64 0) 64 metadata from to refl refl refl pair (omega arith)
