-- ===== src/Sessions/Apart.antt =====
-- UDP sessions of src/server/server.c, told apart by id, and by service and endpoint.
use ctunnel.Prelude.{
  inl, inr, ◌∙◌, sym, subst, ◌⊎◌, ◌≢◌, ℕ, zero, suc, ◌≡◌, ◌≢◌, ◌⊎◌, Bool, true, false, none, List,
  [], ◌∷◌, get_or, set, take, All, arith,
}
use ctunnel.Prelude.Bytes.{bytes_eq_iff}
use ctunnel.Types.{Endpoint}
use ctunnel.Datagram.{address_length}
use ctunnel.Sessions.{Session, no_session, endpoint_equal, index_of}

-- The same place on a network: an address of IPv4 with 4 bytes, or of IPv6 with 16, and a port.
abbrev pub SamePlace : (a b : Endpoint) → Type 0
SamePlace a b =
    (((a.family ≡ 4) × (take 4 a.addr ≡ take 4 b.addr))
      ⊎ ((a.family ≡ 6) × (take 16 a.addr ≡ take 16 b.addr)))
    × (a.family ≡ b.family)
    × (a.port ≡ b.port)

SamePlace-comm : (a b : Endpoint) → SamePlace a b → SamePlace b a
SamePlace-comm a b (inl (e, h), f, p) = (inl (sym f ∙ e, sym h), sym f, sym p)
SamePlace-comm a b (inr (e, h), f, p) = (inr (sym f ∙ e, sym h), sym f, sym p)

-- The code's test finds the same place equal.
endpoint_equal-SamePlace : (a b : Endpoint) → SamePlace a b → endpoint_equal a b ≡ true
unfolding endpoint_equal address_length
endpoint_equal-SamePlace a b (inl (e, h), f, p) =
    ground (arith, e, f, p, (bytes_eq_iff (take 4 a.addr) (take 4 b.addr)).1 h)
endpoint_equal-SamePlace a b (inr (e, h), f, p) =
    ground (arith, e, f, p, (bytes_eq_iff (take 16 a.addr) (take 16 b.addr)).1 h)

pub not_equal-SamePlace : (a b : Endpoint) → endpoint_equal a b ≡ false → ¬ SamePlace b a
not_equal-SamePlace a b e h = absurd (cc (e, endpoint_equal-SamePlace a b (SamePlace-comm b a h)))

-- Two sessions that are not mixed up.
abbrev pub Far : (s t : Session) → Type 0
Far s t =
    (s.active ≡ false)
    ⊎ (t.active ≡ false)
    ⊎ ((s.id ≢ t.id) × ((s.svc ≢ t.svc) ⊎ (¬ SamePlace s.peer t.peer)))

Far-comm : (s t : Session) → Far s t → Far t s
Far-comm s t (inl h) = inr (inl h)
Far-comm s t (inr (inl h)) = inl h
Far-comm s t (inr (inr (i, inl v))) = inr (inr (λ e. i (sym e), inl (λ e. v (sym e))))
Far-comm s t (inr (inr (i, inr p))) =
    inr (inr (λ e. i (sym e), inr (λ h. p (SamePlace-comm t.peer s.peer h))))

-- Each two sessions of a table.
abbrev pub Apart : List Session → Type 0
Apart [] = Unit {0}
Apart (s ∷ udp) = All (Far s) udp × Apart udp

pub All-set :
    {A : Type 0} (P : A → Type 0) (xs : List A) (i : ℕ) (v : A)
    → All P xs
    → P v
    → All P (set xs i v)
All-set P [] i v h k = tt
All-set P (x ∷ xs) zero v h k = (k, h.1)
All-set P (x ∷ xs) (suc i) v h k = (h.0, All-set P xs i v h.1 k)

-- An entry in place of another that has a property too.
pub All-update :
    {A : Type 0} (P : A → Type 0) (xs : List A) (i : ℕ) (d v : A)
    → All P xs
    → (P (get_or xs i d) → P v)
    → All P (set xs i v)
All-update P [] i d v h k = tt
All-update P (x ∷ xs) zero d v h k = (k h.0, h.1)
All-update P (x ∷ xs) (suc i) d v h k = (h.0, All-update P xs i d v h.1 k)

pub All-map :
    {A : Type 0} (P Q : A → Type 0) (xs : List A) → ((x : A) → P x → Q x) → All P xs → All Q xs
All-map P Q [] f h = tt
All-map P Q (x ∷ xs) f h = (f x h.0, All-map P Q xs f h.1)

-- A session that is told apart from all keeps a table apart.
pub set-Apart :
    (udp : List Session) (i : ℕ) (s : Session) → Apart udp → All (Far s) udp → Apart (set udp i s)
set-Apart [] i s h k = tt
set-Apart (x ∷ udp) zero s h k = (k.1, h.1)
set-Apart (x ∷ udp) (suc i) s h k =
    (All-set (Far x) udp i s h.0 (Far-comm s x k.0), set-Apart udp i s h.1 k.1)

-- What tells sessions apart.
abbrev pub SameKey : (s t : Session) → Type 0
SameKey s t = (s.active ≡ t.active) × (s.id ≡ t.id) × (s.svc ≡ t.svc) × (s.peer ≡ t.peer)

Far-SameKey : (s t u : Session) → SameKey s t → Far s u → Far t u
Far-SameKey s t u k (inl h) = inl (sym k.0 ∙ h)
Far-SameKey s t u k (inr (inl h)) = inr (inl h)
Far-SameKey s t u k (inr (inr (i, inl v))) = inr (inr (λ e. i (k.1 ∙ e), inl (λ e. v (k.2 ∙ e))))
Far-SameKey s t u k (inr (inr (i, inr p))) = inr (
    inr (λ e. i (k.1 ∙ e), inr (λ h. p (subst (λ (e : Endpoint). SamePlace e u.peer) (sym k.3) h))))

-- An entry with the same key in the place of another keeps a table apart.
pub update-Apart :
    (udp : List Session) (i : ℕ) (s : Session)
    → SameKey (get_or udp i no_session) s
    → Apart udp
    → Apart (set udp i s)
update-Apart [] i s k h = tt
update-Apart (x ∷ udp) zero s k h =
    (All-map (Far x) (Far s) udp (λ u f. Far-SameKey x s u k f) h.0, h.1)
update-Apart (x ∷ udp) (suc i) s k h = (
  All-update (Far x) udp i no_session s h.0 (λ f.
      Far-comm s x
        (Far-SameKey (get_or udp i no_session) s x k (Far-comm x (get_or udp i no_session) f))),
  update-Apart udp i s k h.1,
)

-- No session of the table passes a test that finds none.
pub index_of-none :
    (test : Session → Bool) (udp : List Session)
    → index_of test udp ≡ none
    → All (λ (s : Session). test s ≡ false) udp
unfolding index_of
index_of-none test [] h = tt
index_of-none test (s ∷ udp) h = ground (arith, h, index_of-none test udp)

pub All-both :
    {A : Type 0} (P Q R : A → Type 0) (xs : List A)
    → ((x : A) → P x → Q x → R x)
    → All P xs
    → All Q xs
    → All R xs
All-both P Q R [] f h k = tt
All-both P Q R (x ∷ xs) f h k = (f x h.0 k.0, All-both P Q R xs f h.1 k.1)
