-- ===== src/Config/Authorized/Lookup.antt =====
-- Which client and which port `ct_authorized_find` and `ct_authorized_port` of
-- src/config/config.c find.
use ctunnel.Prelude.{
  ℕ, ◌≤◌, ◌≡◌, ◌≢◌, ◌↔◌, ◌⊎◌, refl, ap, sym, ◌∙◌, true, false, none, some, List, [], ◌∷◌, ◌++◌, Any,
  map, arith, inl, inr, Bool-cases,
}
use ctunnel.Prelude.Bytes.{bytes_eq, bytes_eq_iff}
use ctunnel.CString.{codes}
use ctunnel.Types.{AuthorizedClient, PortRange}
use ctunnel.Config.Values.{any_eq}
use ctunnel.Config.Authorized.{authorized_find, in_ranges, authorized_port}

-- A port is in one of the ranges.
in_ranges_iff :
    (ranges : List PortRange) (p : ℕ)
    → (in_ranges ranges p ≡ true) ↔ Any (λ (r : PortRange). (r.first ≤ p) × (p ≤ r.last)) ranges
unfolding in_ranges
in_ranges_iff [] p = ground arith
in_ranges_iff (r ∷ ranges) p = ground (arith, in_ranges_iff ranges p)

-- A client may open a port at an address just if its `allow_addr` is "*" or that address, and the
-- port is in one of its ranges.
pub authorized_port_iff :
    (a : AuthorizedClient) (addr : List ℕ) (p : ℕ)
    → (authorized_port a addr p ≡ true) ↔ (
        ((a.allow_addr ≡ codes "*") ⊎ (a.allow_addr ≡ addr))
        × Any (λ (r : PortRange). (r.first ≤ p) × (p ≤ r.last)) a.ports)
unfolding authorized_port
authorized_port_iff a addr p = ground (
  arith,
  in_ranges_iff a.ports p,
  bytes_eq_iff a.allow_addr (codes "*"),
  bytes_eq_iff a.allow_addr addr,
)

-- No id stands in front of one that is equal to it.
abbrev pub Unique : List (List ℕ) → Type 0
Unique [] = Unit {0}
Unique (k ∷ ks) = (any_eq k ks ≡ false) × Unique ks

abbrev pub ids : List AuthorizedClient → List (List ℕ)
ids clients = map (λ (a : AuthorizedClient). a.id) clients

any_eq-snoc :
    (x k : List ℕ) (ks : List (List ℕ))
    → any_eq x ks ≡ false
    → bytes_eq k x ≡ false
    → any_eq x (ks ++ (k ∷ [])) ≡ false
unfolding any_eq
any_eq-snoc x k [] h e = ground (arith, e)
any_eq-snoc x k (y ∷ ks) h e = ground (arith, h, e, any_eq-snoc x k ks)

pub Unique-snoc :
    (ks : List (List ℕ)) (k : List ℕ) → Unique ks → any_eq k ks ≡ false → Unique (ks ++ (k ∷ []))
unfolding any_eq
Unique-snoc [] k u h = (refl, tt)
Unique-snoc (x ∷ ks) k u h = (
  any_eq-snoc x k ks u.0 (ground (arith, h, bytes_eq_iff k x, bytes_eq_iff x k)),
  Unique-snoc ks k u.1 (ground (arith, h)),
)

pub find_none :
    (clients : List AuthorizedClient) (id : List ℕ)
    → authorized_find clients id ≡ none
    → any_eq id (ids clients) ≡ false
unfolding authorized_find any_eq
find_none [] id h = refl
find_none (a ∷ clients) id h = ground (arith, h, find_none clients id)

pub ids-snoc :
    (clients : List AuthorizedClient) (a : AuthorizedClient)
    → ids (clients ++ (a ∷ [])) ≡ ids clients ++ (a.id ∷ [])
ids-snoc [] a = refl
ids-snoc (x ∷ clients) a = ap (x.id ∷◌) (ids-snoc clients a)

any_eq-ids :
    (clients : List AuthorizedClient) (a : AuthorizedClient)
    → Any (λ (x : AuthorizedClient). x ≡ a) clients
    → any_eq a.id (ids clients) ≡ true
unfolding any_eq
any_eq-ids [] a h = absurd h
any_eq-ids (x ∷ clients) a (inl e) =
    rw ((bytes_eq_iff x.id a.id).1 (ap (λ (y : AuthorizedClient). y.id) e)) refl
any_eq-ids (x ∷ clients) a (inr h) = ground (arith, any_eq-ids clients a h)

-- Where no two clients have the same id, the lookup finds a client just if it is one of them and has
-- the id.
pub authorized_find_iff :
    (clients : List AuthorizedClient) (id : List ℕ) (a : AuthorizedClient)
    → Unique (ids clients)
    → (authorized_find clients id ≡ some a)
      ↔ (Any (λ (x : AuthorizedClient). x ≡ a) clients × (a.id ≡ id))
unfolding authorized_find
authorized_find_iff [] id a u = (λ e. absurd (cc), λ h. absurd h.0)
authorized_find_iff (x ∷ clients) id a u = elim (Bool-cases (bytes_eq x.id id)) [
  | inl e ↦ rw e (first ((bytes_eq_iff x.id id).0 e))
  | inr e ↦ rw e (
      later (authorized_find_iff clients id a u.1)
        (λ same. absurd (cc (e, (bytes_eq_iff x.id id).1 same))))
]
  where
    first :
        x.id ≡ id
        → (some x ≡ some a) ↔ (Any (λ (y : AuthorizedClient). y ≡ a) (x ∷ clients) × (a.id ≡ id))
    first e = (
      λ k. let w : x ≡ a = cc k in (inl w, ap (λ (y : AuthorizedClient). y.id) (sym w) ∙ e),
      λ h. elim h.0 [
        | inl w ↦ ap some w
        | inr m ↦
            absurd (let same : x.id ≡ a.id = e ∙ sym h.1 in cc (any_eq-ids clients a m, u.0, same))
      ],
    )

    later :
        ((authorized_find clients id ≡ some a)
          ↔ (Any (λ (y : AuthorizedClient). y ≡ a) clients × (a.id ≡ id)))
        → (x.id ≢ id)
        → (authorized_find clients id ≡ some a)
          ↔ (Any (λ (y : AuthorizedClient). y ≡ a) (x ∷ clients) × (a.id ≡ id))
    later rest n = (
      λ k. let (m, e) = rest.0 k in (inr m, e),
      λ h. elim h.0 [
        | inl w ↦ absurd (n (ap (λ (y : AuthorizedClient). y.id) w ∙ h.1))
        | inr m ↦ rest.1 (m, h.1)
      ],
    )
