-- ===== src/Wire/Events/Tests.antt =====
-- Runs of the event codec, and its theorems at concrete inputs.
use sgsp.Common.{ℕ, ◌≡◌, refl, List, [], ◌∷◌, ◌++◌, arith, some}
use sgsp.Common.Int.{pos}
use sgsp.Wire.Result.{Result, ok, err, eof}
use sgsp.Wire.Varint.{append_varint, decode_varint}
use sgsp.Wire.Varint.Reader.{read_varint, Delivers}
use sgsp.Wire.Cursor.{append_varints}
use sgsp.Wire.Events.{
  Event, validate_event, append_event, encode_reliable_event, decode_event, decode_reliable_event,
  read_reliable_event_header, encode_datagram, decode_datagram,
}
use sgsp.Wire.Events.RoundTrip.{decode-encode_reliable}
use sgsp.Wire.Events.Canonical.{encode-decode_datagram}
use sgsp.Wire.Events.Header.{read-encode_reliable}

abbrev command : Event
command = record { kind = 0; channel = 5; message_type = 300; sequence = 8; payload = 1 ∷ 2 ∷ [] }

abbrev command_frame : List ℕ
command_frame = 6 ∷ 1 ∷ 5 ∷ 0x41 ∷ 0x2c ∷ 1 ∷ 2 ∷ []

command_encoded : encode_reliable_event command (pos 16) ≡ ok command_frame
unfolding encode_reliable_event validate_event append_event append_varints append_varint
command_encoded = refl

decode-encode_reliable_example :
    decode_reliable_event (command_frame ++ (9 ∷ [])) (pos 16)
    ≡ ok (record command { kind = 1; sequence = 0 }, 7)
decode-encode_reliable_example =
    decode-encode_reliable command (pos 16) command_frame (9 ∷ []) (omega arith) command_encoded

abbrev world_snapshot : Event
world_snapshot = record { kind = 3; channel = 1; message_type = 2; sequence = 70; payload = 4 ∷ [] }

abbrev world_snapshot_bytes : List ℕ
world_snapshot_bytes = 3 ∷ 1 ∷ 2 ∷ 0x40 ∷ 70 ∷ 4 ∷ []

snapshot_encoded : encode_datagram world_snapshot (pos 6) ≡ ok world_snapshot_bytes
unfolding encode_datagram validate_event append_event append_varints append_varint
snapshot_encoded = refl

snapshot_decoded : decode_datagram world_snapshot_bytes (pos 6) ≡ ok world_snapshot
unfolding decode_datagram validate_event decode_event decode_varint
snapshot_decoded = refl

encode-decode_datagram_example : encode_datagram world_snapshot (pos 6) ≡ ok world_snapshot_bytes
encode-decode_datagram_example =
    encode-decode_datagram world_snapshot_bytes (pos 6) world_snapshot (omega arith)
      snapshot_decoded

-- A reader over a list of bytes.
abbrev next_byte : List ℕ → Result (ℕ × List ℕ)
next_byte [] = err eof
next_byte (b ∷ bs) = ok (b, bs)

delivered : (bs : List ℕ) → Delivers next_byte bs bs
delivered [] = refl
delivered (b ∷ bs) = (bs, refl, delivered bs)

read-encode_reliable_example :
    (s : List ℕ) × (t : List ℕ) × (len : ℕ) × (read_varint next_byte command_frame ≡ ok (len, s))
    × (read_reliable_event_header next_byte (some s) len (pos 16)
        ≡ ok (record command { kind = 1; sequence = 0; payload = [] }, 2, t))
    × Delivers next_byte t (1 ∷ 2 ∷ [])
read-encode_reliable_example =
    read-encode_reliable next_byte command_frame command (pos 16) command_frame (omega arith)
      command_encoded (delivered command_frame)
