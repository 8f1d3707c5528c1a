-- ===== src/Relay/Authentic.antt =====
-- What `decrypt_ready` of src/net/relay.c hands on, and what the AEAD has opened.
use ctunnel.Prelude.{
  ℕ, zero, suc, ◌+◌, ◌-◌, ◌≤◌, ◌≡◌, refl, sym, ap, ap₂, ◌∙◌, Bool, true, false, Option, none, some,
  List, [], ◌∷◌, ◌++◌, append_assoc, append-nil, length, length-take, drop, take-append-drop, ltb,
  by_test, either_way, inl, inr, ◌⊎◌, arith,
}
use ctunnel.Wire.Ints.{get_u32, get_u64}
use ctunnel.Wire.Record.{record_tag_size, data_record_header_decode, decode_facts}
use ctunnel.Ring.{Ring, IsRing, ring_read}
use ctunnel.Ring.Refine.{contents, length-contents}
use ctunnel.Ring.Read.{ring_read_refines}
use ctunnel.Relay.{
  State, Step, return, again, resume, append, aead_failed, decrypt_append, decrypt_box,
  decrypt_round, decrypt_loop, decrypt_ready,
}
use ctunnel.Relay.Records.{append_lem}

-- A record of the work connection: its header, its sealed bytes, and the plain text they open to.
pub record Unsealed : Type 0 where
  pub header : List ℕ
  pub box : List ℕ
  pub plain : List ℕ

-- The bytes of the records, in their order, and the plain texts.
unfoldable pub sealed_bytes : List Unsealed → List ℕ
sealed_bytes [] = []
sealed_bytes (u ∷ us) = (u.header ++ u.box) ++ sealed_bytes us

unfoldable pub plain_bytes : List Unsealed → List ℕ
plain_bytes [] = []
plain_bytes (u ∷ us) = u.plain ++ plain_bytes us

-- The record is the next behind `seq`: its header carries that number and the size of the sealed
-- bytes, and the AEAD opens these under the number and the header.
pub record IsNext (unseal : ℕ → List ℕ → List ℕ → Option (List ℕ)) (seq : ℕ) (u : Unsealed)
    : Type 0 where
  pub whole_header : length u.header ≡ 12
  pub numbered : get_u64 (drop 4 u.header) ≡ seq + 1
  pub sized : get_u32 u.header ≡ length u.box
  pub authentic : unseal (seq + 1) u.header u.box ≡ some u.plain

-- Each record is the next behind the one before it.
abbrev pub InOrder :
    (unseal : ℕ → List ℕ → List ℕ → Option (List ℕ)) → (seq : ℕ) → List Unsealed → Type 0
InOrder unseal seq [] = Unit {0}
InOrder unseal seq (u ∷ us) = IsNext unseal seq u × InOrder unseal (seq + 1) us

-- What is opened is 16 bytes shorter than what was sealed.
abbrev pub IsShorter : (unseal : ℕ → List ℕ → List ℕ → Option (List ℕ)) → Type 0
IsShorter unseal =
    (seq : ℕ) (header box plain : List ℕ)
    → unseal seq header box ≡ some plain
    → length plain + 16 ≡ length box

-- As much as is asked for is read from the front.
read_lem :
    (r : Ring) (n : ℕ)
    → IsRing r
    → n ≤ r.len
    → let (_, dst, r') = ring_read r n in
      (length dst ≡ n) × (contents r ≡ dst ++ contents r') × (r'.len ≡ r.len - n) × IsRing r'
read_lem r n v h =
    let (k, d, rest, l, _, v') = ring_read_refines r n v in
    let all : (ring_read r n).0 ≡ n = omega (arith, k) in
    (
      omega
          (arith, ap length d, length-take (ring_read r n).0 (contents r), length-contents r, all),
      sym (take-append-drop (ring_read r n).0 (contents r)) ∙ ap₂ ◌++◌ (sym d) (sym rest),
      omega (arith, l, all),
      v',
    )

-- What a call leaves that handed on the records `us`, from the bytes that waited in the ring; on
-- success the bytes behind them still wait.
pub record HandsOn (aead_decrypt : ℕ → List ℕ → List ℕ → ℕ → List ℕ → List ℕ → Option (List ℕ))
    (s : State) (x : Bool × State) : Type 0 where
  pub records : List Unsealed
  pub rest : List ℕ
  pub taken : contents s.relay.work_input ≡ sealed_bytes records ++ rest
  pub in_order :
      InOrder
        (aead_decrypt s.relay.cipher s.relay.recv_key s.relay.recv_nonce)
        s.relay.recv_seq
        records
  pub handed_on : contents x.1.relay.to_direct ≡ contents s.relay.to_direct ++ plain_bytes records
  pub counted : x.1.relay.recv_seq ≡ s.relay.recv_seq + length records
  pub waits : (x.0 ≡ false) ⊎ (contents x.1.relay.work_input ≡ rest)

module _ (chunk : ℕ)
    (aead_encrypt aead_decrypt : ℕ → List ℕ → List ℕ → ℕ → List ℕ → List ℕ → Option (List ℕ)) where
  -- A state with well-formed rings, whose keys are those of `s`.
  abbrev Follows : State → State → Type 0
  Follows s t =
      IsRing t.relay.work_input
      × IsRing t.relay.to_direct
      × (t.relay.cipher ≡ s.relay.cipher)
      × (t.relay.recv_key ≡ s.relay.recv_key)
      × (t.relay.recv_nonce ≡ s.relay.recv_nonce)

  -- What one round does: nothing is handed on, or one record is.
  abbrev Round : State → Step → Type 0
  Round s (return ok t) =
      (contents t.relay.to_direct ≡ contents s.relay.to_direct)
      × (t.relay.recv_seq ≡ s.relay.recv_seq)
      × ((ok ≡ false) ⊎ (contents t.relay.work_input ≡ contents s.relay.work_input))
  Round s (again t) =
      (u : Unsealed) × IsNext (aead_decrypt s.relay.cipher s.relay.recv_key s.relay.recv_nonce)
        s.relay.recv_seq u
      × (contents s.relay.work_input ≡ (u.header ++ u.box) ++ contents t.relay.work_input)
      × (contents t.relay.to_direct ≡ contents s.relay.to_direct ++ u.plain)
      × (t.relay.recv_seq ≡ s.relay.recv_seq + 1)
      × Follows s t

  -- The state behind the two reads.
  abbrev after_reads : State → (n : ℕ) → State
  after_reads s n = record s {
    relay = record s.relay { work_input = (ring_read (ring_read s.relay.work_input 12).2 n).2 };
  }

  module _ (s : State) (n : ℕ) (v : IsRing s.relay.work_input) (w : IsRing s.relay.to_direct)
      (enough : 12 + n ≤ s.relay.work_input.len)
      (room : n - 16 ≤ s.relay.to_direct.cap - s.relay.to_direct.len)
      (shorter : IsShorter (aead_decrypt s.relay.cipher s.relay.recv_key s.relay.recv_nonce)) where
    header : List ℕ
    header = (ring_read s.relay.work_input 12).1

    box : List ℕ
    box = (ring_read (ring_read s.relay.work_input 12).2 n).1

    decrypt_append-Round :
        (seq : ℕ) (o : Option (List ℕ))
        → seq ≡ s.relay.recv_seq + 1
        → get_u64 (drop 4 header) ≡ seq
        → get_u32 header ≡ n
        → aead_decrypt s.relay.cipher s.relay.recv_key s.relay.recv_nonce seq header box ≡ o
        → Round s (decrypt_append chunk aead_encrypt aead_decrypt (after_reads s n) seq o)
    unfolding decrypt_append aead_failed header box
    decrypt_append-Round seq none next numbered sized opened = (refl, refl, inl refl)
    decrypt_append-Round seq (some plain) next numbered sized opened =
        by_test (Round s) (append s.relay.to_direct plain (length plain)).0
          (λ ok. (
            record { header = header; box = box; plain = plain },
            record {
              whole_header = first.0;
              numbered = numbered ∙ next;
              sized = sized ∙ sym second.0;
              authentic =
                  ap
                    (λ (q : ℕ).
                      aead_decrypt s.relay.cipher s.relay.recv_key s.relay.recv_nonce q header box)
                    (sym next)
                  ∙ opened;
            },
            first.1
                ∙ ap (header ++◌) second.1
                ∙ sym (append_assoc header box (contents (after_reads s n).relay.work_input)),
            appended.1,
            next,
            (second.3, appended.4, refl, refl, refl),
          ))
          (λ e. absurd (cc (e, appended.0)))
      where
        first :
            let (_, dst, r') = ring_read s.relay.work_input 12 in
            (length dst ≡ 12)
            × (contents s.relay.work_input ≡ dst ++ contents r')
            × (r'.len ≡ s.relay.work_input.len - 12)
            × IsRing r'
        first = read_lem s.relay.work_input 12 v (omega (arith, enough))

        second :
            let r = (ring_read s.relay.work_input 12).2 in
            let (_, dst, r') = ring_read r n in
            (length dst ≡ n) × (contents r ≡ dst ++ contents r') × (r'.len ≡ r.len - n) × IsRing r'
        second =
            read_lem (ring_read s.relay.work_input 12).2 n first.3 (omega (arith, enough, first.2))

        appended :
            let (ok, r') = append s.relay.to_direct plain (length plain) in
            (ok ≡ true)
            × (contents r' ≡ contents s.relay.to_direct ++ plain)
            × (r'.len ≡ s.relay.to_direct.len + length plain)
            × (r'.cap ≡ s.relay.to_direct.cap)
            × IsRing r'
        appended =
            append_lem s.relay.to_direct plain (length plain) w refl
              (omega (arith, shorter seq header box plain opened, second.0, room, w.len_in))

  decrypt_box-Round :
      (s : State) (o : Option (ℕ × ℕ))
      → IsRing s.relay.work_input
      → IsRing s.relay.to_direct
      → IsShorter (aead_decrypt s.relay.cipher s.relay.recv_key s.relay.recv_nonce)
      → data_record_header_decode (ring_read s.relay.work_input 12).1 chunk s.relay.recv_seq ≡ o
      → Round s (decrypt_box chunk aead_encrypt aead_decrypt s o)
  unfolding decrypt_box aead_failed header box
  decrypt_box-Round s none v w shorter e = (refl, refl, inr refl)
  decrypt_box-Round s (some (n, seq)) v w shorter e =
      by_test (Round s) (ltb s.relay.work_input.len (12 + n)) (λ x. (refl, refl, inr refl))
        (λ enough.
          by_test (Round s)
            (ltb (s.relay.to_direct.cap - s.relay.to_direct.len) (n - record_tag_size))
            (λ x. (refl, refl, inr refl))
            (λ room.
              decrypt_append-Round s n v w (ground (arith, enough)) (ground (arith, room)) shorter
                seq _ facts.2 facts.1 facts.0 refl))
    where
      facts :
          let header = (ring_read s.relay.work_input 12).1 in
          (get_u32 header ≡ n)
          × (get_u64 (drop 4 header) ≡ seq)
          × (seq ≡ s.relay.recv_seq + 1)
          × (16 ≤ n)
          × (n ≤ chunk + 16)
      facts = decode_facts (ring_read s.relay.work_input 12).1 chunk s.relay.recv_seq e

  decrypt_round-Round :
      (s : State)
      → IsRing s.relay.work_input
      → IsRing s.relay.to_direct
      → IsShorter (aead_decrypt s.relay.cipher s.relay.recv_key s.relay.recv_nonce)
      → Round s (decrypt_round chunk aead_encrypt aead_decrypt s)
  unfolding decrypt_round
  decrypt_round-Round s v w shorter =
      either_way (Round s) (ltb s.relay.work_input.len 12) (refl, refl, inr refl)
        (decrypt_box-Round s _ v w shorter refl)

  -- No record is handed on.
  nothing : (s t : State) (ok : Bool) → Round s (return ok t) → HandsOn aead_decrypt s (ok, t)
  unfolding sealed_bytes plain_bytes
  nothing s t ok r = record {
    records = [];
    rest = contents s.relay.work_input;
    taken = refl;
    in_order = tt;
    handed_on = r.0 ∙ sym (append-nil (contents s.relay.to_direct));
    counted = omega (arith, r.1);
    waits = r.2;
  }

  -- A record is handed on before the others.
  one_more :
      (s t : State) (x : Bool × State)
      → Round s (again t)
      → HandsOn aead_decrypt t x
      → HandsOn aead_decrypt s x
  unfolding sealed_bytes plain_bytes
  one_more s t x (u, next, taken, handed, counted, (_, _, same_cipher, same_key, same_nonce)) h =
      record {
        records = u ∷ h.records;
        rest = h.rest;
        taken =
            taken
            ∙ ap ((u.header ++ u.box) ++◌) h.taken
            ∙ sym (append_assoc (u.header ++ u.box) (sealed_bytes h.records) h.rest);
        in_order = (next, subst₄ h.in_order);
        handed_on =
            h.handed_on
            ∙ ap (λ (xs : List ℕ). xs ++ plain_bytes h.records) handed
            ∙ append_assoc (contents s.relay.to_direct) u.plain (plain_bytes h.records);
        counted = omega (arith, h.counted, counted);
        waits = h.waits;
      }
    where
      subst₄ :
          InOrder
            (aead_decrypt t.relay.cipher t.relay.recv_key t.relay.recv_nonce)
            t.relay.recv_seq
            h.records
          → InOrder
              (aead_decrypt s.relay.cipher s.relay.recv_key s.relay.recv_nonce)
              (s.relay.recv_seq + 1)
              h.records
      subst₄ k = rw (sym same_cipher, sym same_key, sym same_nonce, sym counted) k

  decrypt_loop-HandsOn :
      (fuel : ℕ) (s : State)
      → IsRing s.relay.work_input
      → IsRing s.relay.to_direct
      → IsShorter (aead_decrypt s.relay.cipher s.relay.recv_key s.relay.recv_nonce)
      → HandsOn aead_decrypt s (decrypt_loop chunk aead_encrypt aead_decrypt fuel s)
  unfolding decrypt_loop resume
  decrypt_loop-HandsOn zero s v w shorter = nothing s s true (refl, refl, inr refl)
  decrypt_loop-HandsOn (suc fuel) s v w shorter =
      step (decrypt_round chunk aead_encrypt aead_decrypt s) (decrypt_round-Round s v w shorter)
        (λ t. decrypt_loop-HandsOn fuel t)
    where
      step :
          (x : Step)
          → Round s x
          → ((t : State)
              → IsRing t.relay.work_input
              → IsRing t.relay.to_direct
              → IsShorter (aead_decrypt t.relay.cipher t.relay.recv_key t.relay.recv_nonce)
              → HandsOn aead_decrypt t (decrypt_loop chunk aead_encrypt aead_decrypt fuel t))
          → HandsOn aead_decrypt s (resume (decrypt_loop chunk aead_encrypt aead_decrypt fuel) x)
      step (return ok t) r ih = nothing s t ok r
      step (again t) r ih =
          let (_, _, _, _, _, (v', w', cipher', key', nonce')) = r in
          one_more s t _ r (ih t v' w' (rw (cipher', key', nonce') shorter))

  -- Whatever bytes wait in `work_input`, and whether it succeeds or fails: `decrypt_ready` takes
  -- complete records from the front, each of which carries the next sequence number and is opened by
  -- the AEAD under it; it appends the plain texts of these records to `to_direct`, in their order,
  -- and nothing else, and counts them. On success the bytes behind them still wait. The rings are
  -- well formed, and what the AEAD opens is 16 bytes shorter than what was sealed.
  pub decrypt_ready-HandsOn :
      (s : State)
      → IsRing s.relay.work_input
      → IsRing s.relay.to_direct
      → IsShorter (aead_decrypt s.relay.cipher s.relay.recv_key s.relay.recv_nonce)
      → HandsOn aead_decrypt s (decrypt_ready chunk aead_encrypt aead_decrypt s)
  unfolding decrypt_ready
  decrypt_ready-HandsOn s v w shorter = decrypt_loop-HandsOn s.relay.work_input.len s v w shorter
