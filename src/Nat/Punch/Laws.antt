-- ===== src/Nat/Punch/Laws.antt =====
-- internal/nat/nat.go, `Punch`: when it returns a peer, and where its datagrams go.
use relay_tunnel.Prelude.{
  ◌≡◌, ◌↔◌, inl, inr, refl, sym, subst, ap, ◌∙◌, false, ◌==◌, Option, none, some, List, [], ◌∷◌,
  ◌++◌, Bytes, arith, contains, take, Bool-cases, Option-cases, bytes_eq, ==→eq, ==-self, ==-ne,
}
use relay_tunnel.Signal.State.{Addr}
use relay_tunnel.Nat.{same_host_port}
use relay_tunnel.Nat.Punch.{
  match_candidate, hello_text, ack_text, Packet, buf_len, greet, punch_rounds, Acks, Quiet, AllTo,
  Among,
}

-- The peer of the first read that is an acknowledgement from a candidate.
abbrev pub FirstAck : List Addr → List (Option Packet) → Addr → Type 0
FirstAck peers rs p =
    (pre : List (Option Packet)) × (r : Option Packet) × (post : List (Option Packet)) × (rs
      ≡ pre ++ (r ∷ post))
    × Quiet peers pre
    × Acks peers r p

ack-hello : (ack_text == hello_text) ≡ false
ack-hello = ground arith

module _ (show : Addr → Bytes) where
  FirstAck-punch :
      (peers : List Addr) (heard : List Bytes) (pre : List (Option Packet)) (r : Option Packet)
      (post : List (Option Packet)) (p : Addr)
      → Quiet peers pre
      → Acks peers r p
      → (punch_rounds show peers heard (pre ++ (r ∷ post))).peer ≡ some p
  unfolding punch_rounds
  FirstAck-punch peers heard [] none post p q a = absurd a
  FirstAck-punch peers heard [] (some r) post p q (m, d) =
      rw (m, d, ack-hello, ==-self ack_text, punch_rounds) refl
  FirstAck-punch peers heard (none ∷ pre) r post p (q, qs) a =
      FirstAck-punch peers heard pre r post p qs a
  FirstAck-punch peers heard (some x ∷ pre) r post p (q, qs) a =
      elim (Option-cases (match_candidate peers x.addr)) [
        | inl e ↦ rw (e, punch_rounds) (FirstAck-punch peers heard pre r post p qs a)
        | inr (c, e) ↦ elim (Bool-cases (take buf_len x.payload == hello_text)) [
          | inl e' ↦
              rw (e, e', punch_rounds) (FirstAck-punch peers (show c ∷ heard) pre r post p qs a)
          | inr e' ↦ elim (Bool-cases (take buf_len x.payload == ack_text)) [
            | inl e″ ↦ absurd (q c (e, ==→eq (take buf_len x.payload) ack_text e″))
            | inr e″ ↦ rw (e, e', e″, punch_rounds) (FirstAck-punch peers heard pre r post p qs a)
          ]
        ]
      ]

  skip :
      (peers : List Addr) (r : Option Packet) (rs : List (Option Packet)) (p : Addr)
      → ((q : Addr) → ¬ Acks peers r q)
      → FirstAck peers rs p
      → FirstAck peers (r ∷ rs) p
  skip peers r rs p n (pre, x, post, e, q, a) = (r ∷ pre, x, post, ap (λ l. r ∷ l) e, (n, q), a)

  punch-FirstAck :
      (peers : List Addr) (heard : List Bytes) (rs : List (Option Packet)) (p : Addr)
      → (punch_rounds show peers heard rs).peer ≡ some p
      → FirstAck peers rs p
  unfolding punch_rounds
  punch-FirstAck peers heard [] p h = absurd (ground arith)
  punch-FirstAck peers heard (none ∷ rs) p h =
      skip peers none rs p (λ q a. a) (punch-FirstAck peers heard rs p h)
  punch-FirstAck peers heard (some x ∷ rs) p h =
      elim (Option-cases (match_candidate peers x.addr)) [
        | inl e ↦
            skip peers (some x) rs p (ground arith)
              (punch-FirstAck peers heard rs p (rw (e, punch_rounds) at h))
        | inr (c, e) ↦ elim (Bool-cases (take buf_len x.payload == hello_text)) [
          | inl e' ↦
              skip peers (some x) rs p
                (λ q (m, d).
                  ==-ne ack_text ack-hello (sym d ∙ ==→eq (take buf_len x.payload) hello_text e'))
                (punch-FirstAck peers (show c ∷ heard) rs p (rw (e, e', punch_rounds) at h))
          | inr e' ↦ elim (Bool-cases (take buf_len x.payload == ack_text)) [
            | inl e″ ↦ (
              [],
              some x,
              rs,
              refl,
              tt,
              (e ∙ rw (e, e', e″, punch_rounds) at h, ==→eq (take buf_len x.payload) ack_text e″),
            )
            | inr e″ ↦
                skip peers (some x) rs p (λ q (m, d). ==-ne (take buf_len x.payload) e″ d)
                  (punch-FirstAck peers heard rs p (rw (e, e', e″, punch_rounds) at h))
          ]
        ]
      ]

  -- The punch returns a peer exactly when a read returns an acknowledgement from a candidate, and then
  -- it returns the candidate of the first such read, whatever else the socket received.
  pub punch_iff :
      (peers : List Addr) (heard : List Bytes) (rs : List (Option Packet)) (p : Addr)
      → ((punch_rounds show peers heard rs).peer ≡ some p) ↔ FirstAck peers rs p
  punch_iff peers heard rs p = (
    punch-FirstAck peers heard rs p,
    λ (pre, r, post, e, q, a).
        subst (λ l. (punch_rounds show peers heard l).peer ≡ some p) (sym e)
          (FirstAck-punch peers heard pre r post p q a),
  )

  AllTo-append :
      (peers : List Addr) (a b : List Packet) → AllTo peers a → AllTo peers b → AllTo peers (a ++ b)
  AllTo-append peers [] b x y = y
  AllTo-append peers (p ∷ a) b (x, xs) y = (x, AllTo-append peers a b xs y)

  greet-AllTo :
      (peers all : List Addr) (heard : List Bytes)
      → ((a : Addr) → Among a peers → Among a all)
      → AllTo all (greet show peers heard)
  unfolding greet
  greet-AllTo [] all heard k = tt
  greet-AllTo (p ∷ ps) all heard k = elim (Bool-cases (contains heard (show p))) [
    | inl e ↦
        rw (e, greet)
          (k p (inl refl), (k p (inl refl), greet-AllTo ps all heard (λ a m. k a (inr m))))
    | inr e ↦ rw (e, greet) (k p (inl refl), greet-AllTo ps all heard (λ a m. k a (inr m)))
  ]

  match_candidate-Among :
      (peers : List Addr) (from p : Addr) → match_candidate peers from ≡ some p → Among p peers
  unfolding match_candidate
  match_candidate-Among [] from p h = absurd (ground arith)
  match_candidate-Among (x ∷ xs) from p h = elim (Bool-cases (same_host_port from x)) [
    | inl e ↦ inl (sym (ground arith))
    | inr e ↦ inr (match_candidate-Among xs from p (rw (e, match_candidate) at h))
  ]

  -- Every datagram that the punch writes goes to one of the candidates.
  pub punch_rounds-AllTo :
      (peers : List Addr) (heard : List Bytes) (rs : List (Option Packet))
      → AllTo peers (punch_rounds show peers heard rs).wrote
  unfolding punch_rounds
  punch_rounds-AllTo peers heard [] = tt
  punch_rounds-AllTo peers heard (none ∷ rs) =
      AllTo-append peers _ _ (greet-AllTo peers peers heard (λ a m. m))
        (punch_rounds-AllTo peers heard rs)
  punch_rounds-AllTo peers heard (some x ∷ rs) =
      let g = greet-AllTo peers peers heard (λ a m. m) in
      elim (Option-cases (match_candidate peers x.addr)) [
        | inl e ↦
            rw (e, punch_rounds) (AllTo-append peers _ _ g (punch_rounds-AllTo peers heard rs))
        | inr (c, e) ↦
            let m = match_candidate-Among peers x.addr c e in
            elim (Bool-cases (take buf_len x.payload == hello_text)) [
              | inl e' ↦
                  rw (e, e', punch_rounds)
                    (AllTo-append peers _ _ (AllTo-append peers _ _ g (m, tt))
                      (punch_rounds-AllTo peers (show c ∷ heard) rs))
              | inr e' ↦ elim (Bool-cases (take buf_len x.payload == ack_text)) [
                | inl e″ ↦ rw (e, e', e″, punch_rounds) (AllTo-append peers _ _ g (m, (m, (m, tt))))
                | inr e″ ↦
                    rw (e, e', e″, punch_rounds)
                      (AllTo-append peers _ _ g (punch_rounds-AllTo peers heard rs))
              ]
            ]
      ]
