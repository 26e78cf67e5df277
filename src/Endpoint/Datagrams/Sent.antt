-- ===== src/Endpoint/Datagrams/Sent.antt =====
-- endpoint.go: the datagrams that a sender sends, and the numbers of their events.
use sgsp.Common.{
  ℕ, ◌+◌, ◌%◌, ◌^◌, ◌<◌, ◌≤◌, ◌==◌, ◌≡◌, refl, sym, ap, subst, ◌∙◌, arith, List, [], ◌∷◌, length,
  Bool, true, false, ◌⊎◌, inl, inr, Bool-cases,
}
use mathlib.Core.List.{Memᴰ}
use mathlib.Core.List.Memᴰ.{cases_cons, not-nil}
use native.Mathlib.Nat.{mod-eq_of_lt}
use sgsp.Common.Int.{ℤ}
use sgsp.Common.Table.{assign_key}
use sgsp.Wire.Result.{ok}
use sgsp.Wire.Events.{Event, sequenced_kind, encode_datagram}
use sgsp.Endpoint.Limits.{Limits, minimum_advertised_limit}
use sgsp.Endpoint.Session.{Code, normal}
use sgsp.Endpoint.Channels.{bind_outbound}
use sgsp.Endpoint.Datagrams.{
  same_channel, last, Sender, Sending, sends, refuses, next_sequence, event_of, map_wire_error,
  encode_event, send_bound, if_bound, send_datagram, delivery_of,
}
use sgsp.Endpoint.Datagrams.Order.{is_on, on, Climbs, Result-cases, last-assign_key}

-- A message that the application sends over datagrams.
pub record Message : Type 0 where
  pub sequenced : Bool
  pub channel : ℕ
  pub type : ℕ
  pub payload : List ℕ

abbrev pub went : Sending → List (Event × List ℕ) → List (Event × List ℕ)
went (sends e b) rest = (e, b) ∷ rest
went (refuses code) rest = rest

-- The datagrams that go out, in their order.
unfoldable pub send_all : Limits → Limits → List Message → Sender → List (Event × List ℕ)
send_all own peer [] s = []
send_all own peer (m ∷ ms) s =
    let (s', sending) = send_datagram own peer m.sequenced m.channel m.type m.payload s in
    went sending (send_all own peer ms s')

abbrev pub events_of : List (Event × List ℕ) → List Event
events_of [] = []
events_of ((e, b) ∷ rest) = e ∷ events_of rest

abbrev pub datagram_limit : Limits → Limits → ℤ
datagram_limit own peer = minimum_advertised_limit own.datagram_bytes peer.datagram_bytes

-- What a send does to a channel: its number stays or grows by one, and an event on the channel has the
-- new one; an event that is not sequenced has none.
pub data Departure (channel : ℕ) (own peer : Limits) (s : Sender) : Sender × Sending → Type 0 where
  refused :
      (s' : Sender) (code : Code)
      → last channel s.sequences ≤ last channel s'.sequences
      → last channel s'.sequences ≤ last channel s.sequences + 1
      → Departure channel own peer s (s', refuses code)
  left :
      (s' : Sender) (e : Event) (b : List ℕ)
      → encode_datagram e (datagram_limit own peer) ≡ ok b
      → (e.kind ≡ sequenced_kind) ⊎ (e.sequence ≡ 0)
      → last channel s.sequences ≤ last channel s'.sequences
      → last channel s'.sequences ≤ last channel s.sequences + 1
      → (is_on channel e ≡ false)
        ⊎ ((is_on channel e ≡ true)
            × (e.sequence ≡ last channel s'.sequences)
            × (last channel s.sequences < e.sequence))
      → Departure channel own peer s (s', sends e b)

encode_event-cases :
    (own peer : Limits) (e : Event)
    → ((code : Code) × (encode_event own peer e ≡ refuses code))
      ⊎ ((b : List ℕ) × (encode_event own peer e ≡ sends e b)
          × (encode_datagram e (datagram_limit own peer) ≡ ok b))
unfolding encode_event
encode_event-cases own peer e = elim (Result-cases (encode_datagram e (datagram_limit own peer))) [
  | inl (x, d) ↦ inl (map_wire_error x, rw (d, encode_event) refl)
  | inr (b, d) ↦ inr (b, rw (d, encode_event) refl, d)
]

-- The departure of an event, once the sender's numbers are known.
encode_event-Departure :
    (channel : ℕ) (own peer : Limits) (s s' : Sender) (e : Event)
    → (e.kind ≡ sequenced_kind) ⊎ (e.sequence ≡ 0)
    → last channel s.sequences ≤ last channel s'.sequences
    → last channel s'.sequences ≤ last channel s.sequences + 1
    → (is_on channel e ≡ false)
      ⊎ ((is_on channel e ≡ true)
          × (e.sequence ≡ last channel s'.sequences)
          × (last channel s.sequences < e.sequence))
    → Departure channel own peer s (s', encode_event own peer e)
encode_event-Departure channel own peer s s' e k l u o = elim (encode_event-cases own peer e) [
  | inl (code, d) ↦ rw d (refused s' code l u)
  | inr (b, d, f) ↦ rw d (left s' e b f k l u o)
]

send_bound-Departure :
    (channel : ℕ) (own peer : Limits) (s s' : Sender) (m : Message)
    → s'.sequences ≡ s.sequences
    → last channel s.sequences + 1 < 2 ^ 64
    → Departure channel own peer s (send_bound own peer m.sequenced m.channel m.type m.payload s')
unfolding send_bound event_of next_sequence
send_bound-Departure channel own peer s s' m q room = elim (Bool-cases m.sequenced) [
  | inr f ↦
      rw (f, send_bound)
        (encode_event-Departure channel own peer s s' _ (inr refl) (rw q (omega arith))
          (rw q (omega arith)) (inl refl))
  | inl f ↦
      let n = (last m.channel s'.sequences + 1) % 2 ^ 64 in
      let written = last-assign_key channel m.channel n s'.sequences in
      rw (f, send_bound)
        (elim (Bool-cases (m.channel == channel)) [
          | inr c ↦
              let same : last channel (assign_key same_channel m.channel n s'.sequences)
                  ≡ last channel s.sequences =
                (rw c at written) ∙ ap (last channel) q in
              encode_event-Departure channel own peer s _ _ (inl refl) (omega (arith, same))
                (omega (arith, same)) (inl c)
          | inl c ↦
              let here : m.channel ≡ channel = ground arith in
              let next : last channel (assign_key same_channel m.channel n s'.sequences) ≡ n =
                rw c at written in
              let value : n ≡ last channel s.sequences + 1 = rw (here, q) (mod-eq_of_lt room) in
              encode_event-Departure channel own peer s _ _ (inl refl) (omega (arith, next, value))
                (omega (arith, next, value)) (inr (c, sym next, omega (arith, value)))
        ])
]

if_bound-Departure :
    (channel : ℕ) (own peer : Limits) (s : Sender) (x : Sender × Sending) (code : Code)
    → Departure channel own peer s x
    → Departure channel own peer s (if_bound code x s)
if_bound-Departure channel own peer s x normal d = d
if_bound-Departure channel own peer s x refusal d = refused s refusal (omega arith) (omega arith)

send_datagram-Departure :
    (channel : ℕ) (own peer : Limits) (s : Sender) (m : Message)
    → last channel s.sequences + 1 < 2 ^ 64
    → Departure channel own peer s (send_datagram own peer m.sequenced m.channel m.type m.payload s)
unfolding send_datagram
send_datagram-Departure channel own peer s m room =
    let (outbound, code) = bind_outbound own peer s.outbound m.channel (delivery_of m.sequenced) in
    let bound : Sender = record s { outbound = outbound } in
    if_bound-Departure channel own peer s _ code
      (send_bound-Departure channel own peer s bound m refl room)

Climbs-below : (n k : ℕ) (es : List Event) → k ≤ n → Climbs n es → Climbs k es
Climbs-below n k [] h c = tt
Climbs-below n k (e ∷ es) h c = (omega (arith, c.0), c.1)

departed :
    (channel : ℕ) (own peer : Limits) (s : Sender) (x : Sender × Sending)
    (rest : List (Event × List ℕ))
    → Departure channel own peer s x
    → Climbs (last channel x.0.sequences) (on channel (events_of rest))
    → Climbs (last channel s.sequences) (on channel (events_of (went x.1 rest)))
departed channel own peer s _ rest (refused s' code l u) c = Climbs-below _ _ _ l c
departed channel own peer s _ rest (left s' e b d k l u (inl f)) c = rw f (Climbs-below _ _ _ l c)
departed channel own peer s _ rest (left s' e b d k l u (inr (f, q, g))) c =
    rw f (g, rw (sym q) at c)

departed_last :
    (channel : ℕ) (own peer : Limits) (s : Sender) (x : Sender × Sending)
    → Departure channel own peer s x
    → last channel x.0.sequences ≤ last channel s.sequences + 1
departed_last channel own peer s _ (refused s' code l u) = u
departed_last channel own peer s _ (left s' e b d k l u f) = u

-- As long as no number wraps round, the events of a channel leave under numbers that strictly grow.
pub send_all-Climbs :
    (own peer : Limits) (channel : ℕ) (ms : List Message) (s : Sender)
    → last channel s.sequences + length ms < 2 ^ 64
    → Climbs (last channel s.sequences) (on channel (events_of (send_all own peer ms s)))
unfolding send_all
send_all-Climbs own peer channel [] s room = tt
send_all-Climbs own peer channel (m ∷ ms) s room =
    let x = send_datagram own peer m.sequenced m.channel m.type m.payload s in
    let d = send_datagram-Departure channel own peer s m (omega arith) in
    departed channel own peer s x (send_all own peer ms x.0) d (
      send_all-Climbs own peer channel ms x.0 (omega (arith, departed_last channel own peer s x d)))

-- What is known of a datagram that left.
abbrev pub IsEncoded : Limits → Limits → Event → List ℕ → Type 0
IsEncoded own peer e b =
    (encode_datagram e (datagram_limit own peer) ≡ ok b)
    × ((e.kind ≡ sequenced_kind) ⊎ (e.sequence ≡ 0))

departed-IsEncoded :
    (channel : ℕ) (own peer : Limits) (s : Sender) (x : Sender × Sending)
    (rest : List (Event × List ℕ)) (e : Event) (b : List ℕ)
    → Departure channel own peer s x
    → Memᴰ (e, b) (went x.1 rest)
    → IsEncoded own peer e b ⊎ Memᴰ (e, b) rest
departed-IsEncoded channel own peer s _ rest e b (refused s' code l u) m = inr m
departed-IsEncoded channel own peer s _ rest e b (left s' f c d k l u o) m = elim (cases_cons m) [
  | inl q ↦ inl (subst (λ (p : Event × List ℕ). IsEncoded own peer p.0 p.1) (sym q) (d, k))
  | inr n ↦ inr n
]

-- Each datagram that left encodes its event, which has a number only if it is sequenced.
pub send_all-IsEncoded :
    (own peer : Limits) (channel : ℕ) (ms : List Message) (s : Sender) (e : Event) (b : List ℕ)
    → last channel s.sequences + length ms < 2 ^ 64
    → Memᴰ (e, b) (send_all own peer ms s)
    → IsEncoded own peer e b
unfolding send_all
send_all-IsEncoded own peer channel [] s e b room h = absurd (not-nil h)
send_all-IsEncoded own peer channel (m ∷ ms) s e b room h =
    let x = send_datagram own peer m.sequenced m.channel m.type m.payload s in
    let d = send_datagram-Departure channel own peer s m (omega arith) in
    elim (departed-IsEncoded channel own peer s x (send_all own peer ms x.0) e b d h) [
      | inl k ↦ k
      | inr n ↦
          send_all-IsEncoded own peer channel ms x.0 e b
            (omega (arith, departed_last channel own peer s x d)) n
    ]
