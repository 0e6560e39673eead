-- ===== src/Protocol/Frame.antt =====
-- src/hornetlib/protocol/{header,framer,parser}.h: a message behind its 24-byte header, which holds
-- the size and the checksum of the payload. The hash is a parameter, and so are the magic bytes.
pub mod Overwrite
pub mod Parts
pub mod RoundTrip
pub mod Prefix
pub mod Sound
use hornet.Common.{
  ℕ, ◌+◌, ◌-◌, ◌%◌, ◌^◌, Bytes, length, take, drop, replicate, Option, none, some, Bool, false, not,
  ltb, leb, ◌==◌, if◌then◌else◌, bytes_eq,
}
use hornet.Encoding.Reader.{◌>>=◌, Read, return, read_bytes, read_le, read_zero_padded_string}
use hornet.Encoding.Writer.{
  Writer, empty, write_bytes, write_le, write_zero_padded_string, seek_pos,
}
use hornet.Protocol.Message.{Message, kind_of, get_name}
use hornet.Protocol.Message.Payload.{serialize}
use hornet.Protocol.Transaction.{Hash}

pub record FrameHeader : Type 0 where
  pub magic : ℕ
  pub command : Bytes
  pub bytes : ℕ
  pub checksum : Bytes

abbrev pub command_length : ℕ
command_length = 12

abbrev pub header_length : ℕ
header_length = 24

abbrev pub checksum_length : ℕ
checksum_length = 4

abbrev pub max_message_size : ℕ
max_message_size = 4_000_000

unfoldable pub write_header : Writer → FrameHeader → Writer
write_header w h =
    write_bytes
      (write_le 4 (write_zero_padded_string command_length (write_le 4 w h.magic) h.command)
        h.bytes)
      h.checksum

unfoldable pub read_header : Read FrameHeader
read_header = do
  magic ← read_le 4
  command ← read_zero_padded_string command_length
  bytes ← read_le 4
  checksum ← read_bytes checksum_length
  return (record { magic = magic; command = command; bytes = bytes; checksum = checksum })

-- The exceptions of Parse; `bad_read` is one of the reader's own, or a command without a zero byte,
-- whose read is undefined.
pub data ParseError : Type 0 where
  too_short bad_read invalid_magic incomplete too_large checksum_mismatch : ParseError

pub data Parsed : Type 0 where
  parsed : FrameHeader → Bytes → Parsed
  failed : ParseError → Parsed

unfoldable pub parse_header : Bytes → Option FrameHeader
unfolding read_header
parse_header buffer = elim (read_header (record { buffer = buffer; pos = 0 })) [
  | none ↦ none
  | some (h, r) ↦ some h
]

-- IsCompleteMessage: at least the header and the bytes that it announces.
unfoldable pub is_complete_message : Bytes → Option Bool
unfolding parse_header
is_complete_message buffer =
    if ltb (length buffer) header_length then some false else elim (parse_header buffer) [
      | none ↦ none
      | some h ↦ some (leb (header_length + h.bytes) (length buffer))
    ]

abbrev pub checksum_of : (Bytes → Hash) → Bytes → Bytes
checksum_of double_sha256 payload = take checksum_length (double_sha256 payload)

abbrev pub placeholder : ℕ → Bytes → FrameHeader
placeholder magic command = record {
  magic = magic;
  command = command;
  bytes = 0;
  checksum = replicate checksum_length 0;
}

module _ (double_sha256 : Bytes → Hash) (magic : ℕ) where
  -- The header of the payload between two positions; the size is cut to its 32 bits.
  abbrev pub real_header : Bytes → Bytes → ℕ → ℕ → FrameHeader
  real_header command buffer payload_pos end_pos =
      let bytes = (end_pos - payload_pos) % 2 ^ 32 in
      record {
        magic = magic;
        command = command;
        bytes = bytes;
        checksum = checksum_of double_sha256 (take bytes (drop payload_pos buffer));
      }

  -- The header again, in its place, once the payload is written.
  unfoldable pub finish_frame : ℕ → ℕ → Bytes → Writer → Writer
  unfolding write_header
  finish_frame header_pos payload_pos command written =
      let header = real_header command written.buffer payload_pos written.pos in
      seek_pos (write_header (seek_pos written header_pos) header) written.pos

  -- Frame: a header without the details, the payload, and then the header again.
  unfoldable pub frame : Writer → Message → Option Writer
  unfolding write_header serialize kind_of get_name finish_frame
  frame w message =
      let command = get_name (kind_of message) in
      let headed = write_header w (placeholder magic command) in
      elim (serialize headed message) [
        | none ↦ none
        | some written ↦ some (finish_frame w.pos headed.pos command written)
      ]

  unfoldable pub frame_to_buffer : Message → Option Bytes
  unfolding frame
  frame_to_buffer message = elim (frame empty message) [ none ↦ none | some w ↦ some w.buffer ]

  -- The tests behind the header's reading, in their order.
  unfoldable pub check_payload : Bytes → FrameHeader → Parsed
  check_payload buffer h =
      if not (h.magic == magic)
      then failed invalid_magic
      else if ltb (length buffer - header_length) h.bytes
      then failed incomplete
      else if ltb max_message_size h.bytes
      then failed too_large
      else (let payload = take h.bytes (drop header_length buffer) in
          if bytes_eq h.checksum (checksum_of double_sha256 payload)
          then parsed h payload
          else failed checksum_mismatch)

  unfoldable pub parse : Bytes → Parsed
  unfolding check_payload parse_header
  parse buffer =
      if ltb (length buffer) header_length
      then failed too_short
      else elim (parse_header buffer) [ none ↦ failed bad_read | some h ↦ check_payload buffer h ]
