-- ===== src/Protocol/WireTests.antt =====
-- The wire format of src/hornetlib/protocol at a concrete transaction, block and message.
use hornet.Common.{
  ℕ, ◌+◌, ◌-◌, ◌^◌, ◌≤◌, ◌<◌, ◌≡◌, ◌↔◌, refl, List, [], ◌∷◌, ◌++◌, Bytes, length, take, replicate,
  some, true, false, arith, bytes_eq,
}
use hornet.Common.Int.{pos}
use hornet.Encoding.Endian.{le_bytes, from_le}
use hornet.Encoding.RoundTrip.{between, at_end, compact_size}
use hornet.Encoding.Writer.{empty, seek_pos, write_bytes, write_le, write_zero_padded_string}
use hornet.Encoding.Reader.{read_le, read_bytes, read_zero_padded_string, until_zero, has_zero}
use hornet.Protocol.Block.{Block, get_stripped_size}
use hornet.Protocol.Block.RoundTrip.{encode_block, IsWireBlock}
use hornet.Protocol.Block.Serialize.{write_block, read_block}
use hornet.Protocol.Block.Sizes.{read_block-write_block}
use hornet.Protocol.Frame.{FrameHeader, frame_to_buffer, is_complete_message, parse, parsed}
use hornet.Protocol.Frame.Prefix.{is_complete_message-take}
use hornet.Protocol.Frame.RoundTrip.{encode_frame, parse-frame}
use hornet.Protocol.Frame.Sound.{IsParsed, parse_sound}
use hornet.Protocol.Handshake.{
  Handshake, outbound, Transition, begin, send_version, receive_version, send_verack,
  receive_verack, complete, nothing, new_handshake, is_complete, advance_state,
}
use hornet.Protocol.Handshake.Counts.{advance_all, count, no_counts, history, advance_all-history}
use hornet.Protocol.Message.{ping, kind_of, create, get_name}
use hornet.Protocol.Message.Payload.{deserialize}
use hornet.Protocol.Message.RoundTrip.{encode_message}
use hornet.Protocol.Transaction.{Hash, Transaction, is_witness, with_witness, serialize}
use hornet.Protocol.Transaction.Deserialize
use hornet.Protocol.Transaction.Encode.{encode, IsSerializable}
use hornet.Protocol.Transaction.RoundTrip.{deserialize-serialize}

abbrev some_hash : Hash
some_hash = replicate 32 7

-- One input with a witness of one item, and one output.
abbrev sample_tx : Transaction
sample_tx = record {
  version = 2;
  inputs =
      record {
        previous_output = record { hash = some_hash; index = 1 };
        signature_script = 0x51 ∷ [];
        sequence = 0xFFFF_FFFF;
      }
      ∷ [];
  outputs = record { value = pos 5_000; pk_script = 0x51 ∷ 0x87 ∷ [] } ∷ [];
  witnesses = ((1 ∷ 2 ∷ 3 ∷ []) ∷ []) ∷ [];
  lock_time = 0;
  no_witness_size_bytes = pos 63;
}

sample_tx-IsSerializable : IsSerializable sample_tx
unfolding is_witness le_bytes compact_size
sample_tx-IsSerializable = record {
  some_inputs = omega arith;
  few_inputs = omega arith;
  few_outputs = omega arith;
  version_fits = omega arith;
  lock_time_fits = omega arith;
  inputs_fit = (((refl, omega arith), omega arith, omega arith), tt);
  outputs_fit = ((omega arith, omega arith), tt);
  witnesses_fit = ((omega arith, (omega arith, tt)), tt);
  witness_for_each = λ _. refl;
  size_fits = omega arith;
}

sample_tx_small : 0 + length (encode (is_witness sample_tx) sample_tx) + 0 < 2 ^ 64
unfolding is_witness le_bytes compact_size
sample_tx_small = omega arith

deserialize-serialize_example :
    (serialize (at_end []) sample_tx true
      ≡ some (at_end ([] ++ encode (is_witness sample_tx) sample_tx)))
    × (serialize empty sample_tx false ≡ some (at_end (encode false sample_tx)))
    × (Deserialize.deserialize (between [] (encode (is_witness sample_tx) sample_tx ++ []))
        ≡ some (
          (
            record sample_tx { no_witness_size_bytes = pos (length (encode false sample_tx)) },
            pos (
                length (encode (is_witness sample_tx) sample_tx) - length (encode false sample_tx)),
          ),
          between ([] ++ encode (is_witness sample_tx) sample_tx) [],
        ))
deserialize-serialize_example =
    deserialize-serialize sample_tx [] [] sample_tx-IsSerializable sample_tx_small

abbrev wire_block : Block
wire_block = record {
  header = record {
    version = pos 4;
    prev_block = some_hash;
    merkle_root = some_hash;
    timestamp = 1_500_000_000;
    bits = 0x1d00_ffff;
    nonce = 3;
  };
  transactions = sample_tx ∷ [];
  serialized_bytes = pos 151;
  witness_bytes = pos 7;
}

wire_block-IsWireBlock : IsWireBlock wire_block
unfolding with_witness is_witness le_bytes compact_size
wire_block-IsWireBlock = record {
  header_fits = record {
    version_fits = omega arith;
    prev_block_size = refl;
    merkle_root_size = refl;
    timestamp_fits = omega arith;
    bits_fit = omega arith;
    nonce_fits = omega arith;
  };
  few_transactions = omega arith;
  transactions_fit = ((sample_tx-IsSerializable, refl), tt);
  size_fits = omega arith;
  serialized_size = refl;
  witness_total = refl;
}

wire_block_small : 0 + length (encode_block true wire_block) + 0 < 2 ^ 64
unfolding with_witness is_witness le_bytes compact_size
wire_block_small = omega arith

read_block-write_block_example :
    (write_block (at_end []) wire_block true ≡ some (at_end ([] ++ encode_block true wire_block)))
    × (read_block (between [] (encode_block true wire_block ++ []))
        ≡ some (wire_block, between ([] ++ encode_block true wire_block) []))
    × (write_block (at_end []) wire_block false
        ≡ some (at_end ([] ++ encode_block false wire_block)))
    × (get_stripped_size wire_block ≡ some (pos (length (encode_block false wire_block))))
read_block-write_block_example =
    read_block-write_block wire_block [] [] wire_block-IsWireBlock wire_block_small

abbrev any_hash : Bytes → Hash
any_hash bytes = some_hash

any_hash_size : (bytes : Bytes) → length (any_hash bytes) ≡ 32
any_hash_size bytes = refl

abbrev main_magic : ℕ
main_magic = 0xD9B4_BEF9

ping_small : length (encode_message (ping 9)) ≤ 4_000_000
unfolding le_bytes
ping_small = omega arith

ping_frame_small : length (encode_frame any_hash main_magic (ping 9)) + 1 < 2 ^ 64
unfolding le_bytes get_name kind_of
ping_frame_small = omega arith

parse-frame_example :
    (buffer : Bytes) × (h : FrameHeader) × (payload : Bytes) × (frame_to_buffer any_hash main_magic
        (ping 9)
      ≡ some buffer)
    × (is_complete_message (buffer ++ (5 ∷ [])) ≡ some true)
    × (parse any_hash main_magic (buffer ++ (5 ∷ [])) ≡ parsed h payload)
    × (create h.command ≡ some (kind_of (ping 9)))
    × (deserialize (kind_of (ping 9)) (between [] payload) ≡ some (ping 9, between payload []))
parse-frame_example =
    parse-frame any_hash main_magic any_hash_size (omega arith) (ping 9) (5 ∷ []) (omega arith)
      ping_small ping_frame_small

abbrev ping_header : FrameHeader
ping_header = record {
  magic = main_magic;
  command = 112 ∷ 105 ∷ 110 ∷ 103 ∷ [];
  bytes = 8;
  checksum = 7 ∷ 7 ∷ 7 ∷ 7 ∷ [];
}

abbrev ping_payload : Bytes
ping_payload = 9 ∷ replicate 7 0

abbrev ping_bytes : Bytes
ping_bytes =
    0xF9
    ∷ 0xBE
    ∷ 0xB4
    ∷ 0xD9
    ∷ 112
    ∷ 105
    ∷ 110
    ∷ 103
    ∷ (replicate 8 0 ++ (8 ∷ 0 ∷ 0 ∷ 0 ∷ 7 ∷ 7 ∷ 7 ∷ 7 ∷ ping_payload))

ping_framed : frame_to_buffer any_hash main_magic (ping 9) ≡ some ping_bytes
unfolding frame_to_buffer seek_pos write_bytes write_le write_zero_padded_string le_bytes
ping_framed = refl

is_complete_message-take_example : is_complete_message (take 31 ping_bytes) ≡ some false
is_complete_message-take_example =
    is_complete_message-take any_hash main_magic any_hash_size (omega arith) (ping 9) ping_bytes 31
      (omega arith) ping_small ping_framed (omega arith)

ping_parsed : parse any_hash main_magic ping_bytes ≡ parsed ping_header ping_payload
unfolding parse read_le read_bytes read_zero_padded_string from_le bytes_eq until_zero has_zero
ping_parsed = refl

parse_sound_example : IsParsed any_hash main_magic ping_bytes ping_header ping_payload
parse_sound_example =
    parse_sound any_hash main_magic ping_bytes ping_header ping_payload ping_parsed

abbrev dialogue : List Transition
dialogue = begin ∷ send_version ∷ receive_version ∷ send_verack ∷ receive_verack ∷ []

abbrev greeted : Handshake
greeted = record { role = outbound; state = record { state = complete; action = nothing } }

dialogue_accepted : advance_all (new_handshake outbound) dialogue ≡ some greeted
unfolding advance_state
dialogue_accepted = refl

advance_all-history_example :
    (count no_counts dialogue ≡ history complete)
    × ((is_complete greeted ≡ true) ↔ (count no_counts dialogue ≡ 0 ∷ 1 ∷ 1 ∷ 1 ∷ 1 ∷ 1 ∷ []))
advance_all-history_example = advance_all-history outbound dialogue greeted dialogue_accepted
