-- ===== src/Endpoint/Datagrams/Delivered.antt =====
-- endpoint.go: what a receiver delivers of what a sender sent, whatever the network does between them.
use sgsp.Common.{
  ℕ, ◌+◌, ◌^◌, ◌<◌, ◌≡◌, refl, ap, ◌∙◌, arith, All, List, [], ◌∷◌, length, Bool, ◌⊎◌, inl, inr,
}
use mathlib.Core.List.{Memᴰ, Sublistᴰ}
use mathlib.Core.List.Memᴰ.{cases_cons, not-nil, head, tail}
use sgsp.Common.Int.{ℤ}
use sgsp.Wire.Result.{ok}
use sgsp.Wire.Events.{Event, sequenced_kind, decode_datagram}
use sgsp.Wire.Events.Datagram.{kept_sequence, decode-encode_datagram, decode_datagram_unique}
use sgsp.Endpoint.Limits.{Limits}
use sgsp.Endpoint.Datagrams.{
  last, Sender, Receiver, Fate, handed, receive_datagram, receive_datagrams,
}
use sgsp.Endpoint.Datagrams.Order.{
  on, Arrival, dropped, ended, elsewhere, newer, receive_datagram-Arrival, receive_datagrams-Climbs,
}
use sgsp.Endpoint.Datagrams.Sent.{
  Message, send_all, events_of, IsEncoded, datagram_limit, send_all-Climbs, send_all-IsEncoded,
}
use sgsp.Endpoint.Datagrams.Climbing.{Climbs-Sublist, mem_of_on, on_of_mem, all_of_mem}

handed_from :
    (own : Limits) (b : List ℕ) (r : Receiver) (next : Receiver × Fate) (rest : List Event)
    (e : Event)
    → Arrival 0 b own r next
    → Memᴰ e (handed next.1 rest)
    → (decode_datagram b own.datagram_bytes ≡ ok e) ⊎ Memᴰ e rest
handed_from own b r _ rest e (dropped r' q) m = inr m
handed_from own b r _ rest e (ended r') m = absurd (not-nil m)
handed_from own b r _ rest e (elsewhere r' f d o q) m = elim (cases_cons m) [
  | inl p ↦ inl (rw p d)
  | inr k ↦ inr k
]
handed_from own b r _ rest e (newer r' f d o l q) m = elim (cases_cons m) [
  | inl p ↦ inl (rw p d)
  | inr k ↦ inr k
]

-- An event that is delivered came with some arrival.
delivered_from :
    (own : Limits) (arrivals : List (List ℕ × Bool)) (r : Receiver) (e : Event)
    → Memᴰ e (receive_datagrams own arrivals r)
    → (a : List ℕ × Bool) × Memᴰ a arrivals × (decode_datagram a.0 own.datagram_bytes ≡ ok e)
unfolding receive_datagrams
delivered_from own [] r e m = absurd (not-nil m)
delivered_from own ((b, allowed) ∷ rest) r e m =
    let next = receive_datagram own allowed b r in
    elim (handed_from own b r next _ e (receive_datagram-Arrival 0 b allowed own r) m) [
      | inl d ↦ ((b, allowed), head refl, d)
      | inr k ↦ let (a, l, d) = delivered_from own rest next.0 e k in (a, tail l, d)
    ]

mem-events_of :
    (es : List (Event × List ℕ)) (e : Event) (b : List ℕ) → Memᴰ (e, b) es → Memᴰ e (events_of es)
mem-events_of [] e b m = absurd (not-nil m)
mem-events_of (f ∷ es) e b m = elim (cases_cons m) [
  | inl q ↦ head (ap (λ (p : Event × List ℕ). p.0) q)
  | inr k ↦ tail (mem-events_of es e b k)
]

kept :
    (e : Event)
    → (e.kind ≡ sequenced_kind) ⊎ (e.sequence ≡ 0)
    → record e { sequence = kept_sequence e } ≡ e
kept e (inl k) = ap (λ (n : ℕ). record e { sequence = n }) (ground arith)
kept e (inr k) = ap (λ (n : ℕ). record e { sequence = n }) (ground arith)

-- The bytes of a datagram that left say its event, under any limit that admits them.
decode-IsEncoded :
    (own peer : Limits) (m : ℤ) (e f : Event) (b : List ℕ)
    → IsEncoded own peer e b
    → decode_datagram b m ≡ ok f
    → f ≡ e
decode-IsEncoded own peer m e f b (d, k) h =
    decode_datagram_unique b m (datagram_limit own peer) f e h
      (decode-encode_datagram e (datagram_limit own peer) b d ∙ rw (kept e k) refl)

-- An arrival that the sender sent.
abbrev pub IsFrom : List (Event × List ℕ) → List ℕ × Bool → Type 0
IsFrom sent a = (e : Event) × Memᴰ (e, a.0) sent

-- What a receiver delivers of a channel's sequenced events is a part of what its peer sent on the
-- channel, in the order in which it was sent: the network may lose, repeat and reorder the
-- datagrams, and either side's limits may refuse some, but each arrival is a datagram that the peer
-- sent, and the channel's numbers do not reach 2^64.
pub delivered_in_order :
    (own peer receiver : Limits) (channel : ℕ) (ms : List Message) (s : Sender)
    (arrivals : List (List ℕ × Bool)) (r : Receiver)
    → last channel s.sequences + length ms < 2 ^ 64
    → All (IsFrom (send_all own peer ms s)) arrivals
    → Sublistᴰ
        (on channel (receive_datagrams receiver arrivals r))
        (on channel (events_of (send_all own peer ms s)))
delivered_in_order own peer receiver channel ms s arrivals r room sent =
    let all = send_all own peer ms s in
    let got = receive_datagrams receiver arrivals r in
    Climbs-Sublist (last channel r.received) (last channel s.sequences) (on channel got)
      (on channel (events_of all)) (receive_datagrams-Climbs receiver channel arrivals r)
      (send_all-Climbs own peer channel ms s room)
      (λ e m.
        let (there, o) = mem_of_on channel got e m in
        let (a, l, d) = delivered_from receiver arrivals r e there in
        let (f, k) = all_of_mem (IsFrom all) arrivals a sent l in
        let same =
          decode-IsEncoded own peer receiver.datagram_bytes f e a.0
            (send_all-IsEncoded own peer channel ms s f a.0 room k) d in
        on_of_mem channel (events_of all) e (rw same (mem-events_of all f a.0 k)) o)
