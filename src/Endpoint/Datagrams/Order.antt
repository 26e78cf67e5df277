-- ===== src/Endpoint/Datagrams/Order.antt =====
-- endpoint.go: receiveDatagrams keeps the order of each channel's sequenced datagrams.
use sgsp.Common.{
  ℕ, ◌<◌, ◌==◌, ◌≡◌, refl, ap, ◌∙◌, arith, leb, List, [], ◌∷◌, if◌then◌else◌, Bool, true, false,
  ◌&&◌, ◌⊎◌, inl, inr, Bool-cases,
}
use sgsp.Common.Table.{assign_key, lookup-assign_key, Decides}
use sgsp.Wire.Result.{Result, Error, ok, err}
use sgsp.Wire.Events.{Event, sequenced_kind, decode_datagram}
use sgsp.Endpoint.Limits.{Limits}
use sgsp.Endpoint.Channels.{bind_inbound}
use sgsp.Endpoint.Datagrams.{
  Sequences, same_channel, last, Receiver, Fate, delivers, drops, closes, take_event,
  receive_datagram, receive_datagrams, handed, delivery_of,
}

channels-Decides : Decides same_channel
channels-Decides = record { equal = λ a b h. ground arith; reflexive = λ a. ground arith }

pub last-assign_key :
    (j k n : ℕ) (t : Sequences)
    → last j (assign_key same_channel k n t) ≡ (if k == j then n else last j t)
last-assign_key j k n t =
    rw (lookup-assign_key same_channel channels-Decides j k n t, last)
      (elim (Bool-cases (k == j)) [ inl e ↦ rw e refl | inr e ↦ rw e refl ])

pub Result-cases :
    {V : Type 0} (r : Result V) → ((x : Error) × (r ≡ err x)) ⊎ ((v : V) × (r ≡ ok v))
Result-cases (err x) = inl (x, refl)
Result-cases (ok v) = inr (v, refl)

-- The sequenced events of a channel.
abbrev pub is_on : ℕ → Event → Bool
is_on channel e = e.kind == sequenced_kind && e.channel == channel

abbrev pub on : ℕ → List Event → List Event
on channel [] = []
on channel (e ∷ es) = let rest = on channel es in if is_on channel e then e ∷ rest else rest

-- Sequence numbers that strictly grow, and start above `n`.
abbrev pub Climbs : ℕ → List Event → Type 0
Climbs n [] = Unit
Climbs n (e ∷ es) = (n < e.sequence) × Climbs e.sequence es

-- What an arrival does to a channel: nothing, or its event is delivered; on this channel it is newer than
-- the last one, which it is from then on.
pub data Arrival (channel : ℕ) (bytes : List ℕ) (own : Limits) (r : Receiver)
    : Receiver × Fate → Type 0 where
  dropped :
      (r' : Receiver)
      → last channel r'.received ≡ last channel r.received
      → Arrival channel bytes own r (r', drops)
  ended : (r' : Receiver) → Arrival channel bytes own r (r', closes)
  elsewhere :
      (r' : Receiver) (e : Event)
      → decode_datagram bytes own.datagram_bytes ≡ ok e
      → is_on channel e ≡ false
      → last channel r'.received ≡ last channel r.received
      → Arrival channel bytes own r (r', delivers e)
  newer :
      (r' : Receiver) (e : Event)
      → decode_datagram bytes own.datagram_bytes ≡ ok e
      → is_on channel e ≡ true
      → last channel r.received < e.sequence
      → last channel r'.received ≡ e.sequence
      → Arrival channel bytes own r (r', delivers e)

take_event-Arrival :
    (channel : ℕ) (bytes : List ℕ) (own : Limits) (r s : Receiver) (e : Event)
    → decode_datagram bytes own.datagram_bytes ≡ ok e
    → s.received ≡ r.received
    → Arrival channel bytes own r (take_event e s)
unfolding take_event
take_event-Arrival channel bytes own r s e d q = elim (Bool-cases (e.kind == sequenced_kind)) [
  | inr k ↦ rw (k, take_event) (elsewhere s e d (rw k refl) (ap (last channel) q))
  | inl k ↦ elim (Bool-cases (leb e.sequence (last e.channel s.received))) [
    | inl l ↦ rw (k, l, take_event) (dropped s (ap (last channel) q))
    | inr l ↦
        let s' : Receiver = record s {
          received = assign_key same_channel e.channel e.sequence s.received;
        } in
        let written = last-assign_key channel e.channel e.sequence s.received in
        rw (k, l, take_event)
          (elim (Bool-cases (e.channel == channel)) [
            | inr c ↦ elsewhere s' e d (rw (k, c) refl) ((rw c at written) ∙ ap (last channel) q)
            | inl c ↦
                let here : e.channel ≡ channel = ground arith in
                let below : last e.channel s.received < e.sequence = ground arith in
                newer s' e d (rw (k, c) refl) (rw (here, q) at below) (rw c at written)
          ])
  ]
]

pub receive_datagram-Arrival :
    (channel : ℕ) (bytes : List ℕ) (allowed : Bool) (own : Limits) (r : Receiver)
    → Arrival channel bytes own r (receive_datagram own allowed bytes r)
unfolding receive_datagram
receive_datagram-Arrival channel bytes allowed own r =
    elim (Result-cases (decode_datagram bytes own.datagram_bytes)) [
      | inl (x, d) ↦ rw (d, receive_datagram) (dropped r refl)
      | inr (e, d) ↦ elim (Bool-cases allowed) [
        | inr a ↦ rw (d, a, receive_datagram) (dropped r refl)
        | inl a ↦
            let bound =
              bind_inbound own r.inbound e.channel (delivery_of (e.kind == sequenced_kind)) in
            let s : Receiver = record r { inbound = bound.0 } in
            elim (Bool-cases bound.1) [
              | inr f ↦ rw (d, a, f, receive_datagram) (ended s)
              | inl f ↦
                  rw (d, a, f, receive_datagram) (take_event-Arrival channel bytes own r s e d refl)
            ]
      ]
    ]

arrived :
    (own : Limits) (channel : ℕ) (bytes : List ℕ) (r : Receiver) (next : Receiver × Fate)
    (es : List Event)
    → Arrival channel bytes own r next
    → Climbs (last channel next.0.received) (on channel es)
    → Climbs (last channel r.received) (on channel (handed next.1 es))
arrived own channel bytes r _ es (dropped r' q) c = rw q at c
arrived own channel bytes r _ es (ended r') c = tt
arrived own channel bytes r _ es (elsewhere r' e d f q) c = rw f (rw q at c)
arrived own channel bytes r _ es (newer r' e d f l q) c = rw f (l, rw q at c)

-- Whatever arrives, and whatever the rate admits, the sequenced events of a channel are delivered under
-- numbers that strictly grow, from above the last one that was taken: none comes twice, and none
-- behind a newer one.
pub receive_datagrams-Climbs :
    (own : Limits) (channel : ℕ) (arrivals : List (List ℕ × Bool)) (r : Receiver)
    → Climbs (last channel r.received) (on channel (receive_datagrams own arrivals r))
unfolding receive_datagrams
receive_datagrams-Climbs own channel [] r = tt
receive_datagrams-Climbs own channel ((bytes, allowed) ∷ rest) r =
    let next = receive_datagram own allowed bytes r in
    arrived own channel bytes r next (receive_datagrams own rest next.0)
      (receive_datagram-Arrival channel bytes allowed own r)
      (receive_datagrams-Climbs own channel rest next.0)
