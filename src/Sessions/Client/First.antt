-- ===== src/Sessions/Client/First.antt =====
-- The table and the window of src/client/client.c at the first datagram of a session.
use ctunnel.Prelude.{
  ℕ, zero, suc, ◌-◌, ◌*◌, ◌^◌, ◌<◌, ◌≡◌, ◌≢◌, refl, ap, Bool, true, false, none, some, List, [],
  ◌∷◌, leb, get_or, set, length, take, inl, inr, Bool-cases, Option-cases, arith,
}
use ctunnel.Prelude.Bytes.{bytes_eq, bytes_eq_iff}
use ctunnel.Types.{Endpoint, ServiceConfig}
use ctunnel.Datagram.{address_length}
use ctunnel.Replay.{udp_replay_accept, slide}
use ctunnel.Sessions.{endpoint_equal, index_of}
use ctunnel.Sessions.Client.{client_svc}

pub get_or-set :
    {A : Type 0} (xs : List A) (i : ℕ) (v d : A) → i < length xs → get_or (set xs i v) i d ≡ v
get_or-set [] i v d h = absurd (omega (arith, h))
get_or-set (x ∷ xs) zero v d h = refl
get_or-set (x ∷ xs) (suc i) v d h = get_or-set xs i v d (omega (arith, h))

pub index_of_bound :
    {A : Type 0} (test : A → Bool) (xs : List A) (i : ℕ) → index_of test xs ≡ some i → i < length xs
unfolding index_of
index_of_bound test [] i h = absurd (cc)
index_of_bound test (x ∷ xs) i h = elim (Bool-cases (test x)) [
  | inl e ↦ ground (arith, e, h)
  | inr e ↦ elim (Option-cases (index_of test xs)) [
    | inl n ↦ ground (arith, e, h, n)
    | inr (j, n) ↦ ground (arith, e, h, n, index_of_bound test xs j n)
  ]
]

-- The only entry that passes a test is found.
pub index_of-set :
    {A : Type 0} (test : A → Bool) (xs : List A) (i : ℕ) (v : A)
    → index_of test xs ≡ none
    → i < length xs
    → test v ≡ true
    → index_of test (set xs i v) ≡ some i
unfolding index_of
index_of-set test [] i v n h t = absurd (omega (arith, h))
index_of-set test (x ∷ xs) zero v n h t = rw t refl
index_of-set test (x ∷ xs) (suc i) v n h t =
    let k : test x ≡ false = ground (arith, n) in
    let m : index_of test xs ≡ none = ground (arith, n) in
    rw (k, index_of-set test xs i v m (omega (arith, h)) t) refl

pub set-set : {A : Type 0} (xs : List A) (i : ℕ) (v w : A) → set (set xs i v) i w ≡ set xs i w
set-set [] i v w = refl
set-set (x ∷ xs) zero v w = refl
set-set (x ∷ xs) (suc i) v w = ap (x ∷◌) (set-set xs i v w)

pub client_svc_lem :
    (services : List ServiceConfig) (id : List ℕ) (s : ServiceConfig)
    → client_svc services id ≡ some s
    → bytes_eq s.id id ≡ true
unfolding client_svc
client_svc_lem [] id s h = absurd (cc)
client_svc_lem (x ∷ services) id s h = elim (Bool-cases (bytes_eq x.id id)) [
  | inl e ↦ ground (arith, e, h)
  | inr e ↦ client_svc_lem services id s (ground (arith, e, h))
]

pub endpoint_equal_refl : (e : Endpoint) → address_length e.family ≢ 0 → endpoint_equal e e ≡ true
unfolding endpoint_equal
endpoint_equal_refl e h = ground (
  arith,
  h,
  bytes_eq_iff (take (address_length e.family) e.addr) (take (address_length e.family) e.addr),
)

slide_zero : (shift : ℕ) → slide 0 shift ≡ 1
unfolding slide
slide_zero shift = elim (Bool-cases (leb 64 shift)) [
  | inl e ↦ rw e refl
  | inr e ↦ let z : 0 * 2 ^ shift ≡ 0 = omega arith in rw (e, z) refl
]

-- The window behind the first sequence number, and the same number once more.
pub accept_first :
    (window seq : ℕ)
    → 0 < seq
    → udp_replay_accept window (record { high = 0; bitmap = 0 }) seq
      ≡ (true, record { high = seq; bitmap = 1 })
unfolding udp_replay_accept
accept_first window seq h = ground (arith, h, slide_zero (seq - 0))

pub accept_again :
    (window seq : ℕ)
    → 0 < seq
    → 0 < window
    → udp_replay_accept window (record { high = seq; bitmap = 1 }) seq
      ≡ (false, record { high = seq; bitmap = 1 })
unfolding udp_replay_accept
accept_again window seq h w = let e : seq - seq ≡ 0 = omega arith in rw e (ground (arith, h, w))
