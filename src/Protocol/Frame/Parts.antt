-- ===== src/Protocol/Frame/Parts.antt =====
-- The 24 bytes of a header: written, written over another, and read.
use hornet.Common.{
  ◌+◌, ◌-◌, ◌^◌, ◌<◌, ◌≡◌, refl, ap, [], ◌++◌, Bytes, length, length-append, take, replicate,
  Option, none, some, arith,
}
use hornet.Encoding.Codec.{
  then-Reads, Appends, Appends-then, Reads, bind-Reads, map-Reads, read_le-Reads, read_bytes-Reads,
  write_le-Appends, write_bytes-Appends,
}
use hornet.Encoding.Endian.{le_bytes, length-le_bytes}
use hornet.Common.{true}
use hornet.Encoding.Reader.{
  Reader, read_le, read_bytes, read_zero_padded_string, until_zero, has_zero,
}
use hornet.Encoding.Writer.{Writer, write_bytes, write_le, write_zero_padded_string}
use hornet.Protocol.Frame.{FrameHeader, command_length, write_header, read_header, parse_header}
use hornet.Protocol.Frame.Overwrite.{Overwrites, Overwrites-then, write_bytes-Overwrites}
use hornet.Protocol.Message.{
  Kind, block_kind, get_data_kind, get_headers_kind, headers_kind, ping_kind, pong_kind,
  verack_kind, version_kind, send_compact_kind, get_name,
}
use Prim.Native.Nat.{min}
use mathlib.Core.Path.{subst}

-- The 12 bytes of a command.
abbrev pub padded : Bytes → Bytes
padded s =
    take (min (length s) command_length) s
    ++ replicate (command_length - min (length s) command_length) 0

abbrev pub encode_frame_header : FrameHeader → Bytes
encode_frame_header h =
    le_bytes 4 h.magic ++ (padded h.command ++ (le_bytes 4 h.bytes ++ h.checksum))

pub length-padded : (kind : Kind) → length (padded (get_name kind)) ≡ 12
unfolding get_name
length-padded block_kind = refl
length-padded get_data_kind = refl
length-padded get_headers_kind = refl
length-padded headers_kind = refl
length-padded ping_kind = refl
length-padded pong_kind = refl
length-padded verack_kind = refl
length-padded version_kind = refl
length-padded send_compact_kind = refl

until_zero-padded : (kind : Kind) → until_zero (padded (get_name kind)) ≡ get_name kind
unfolding get_name until_zero
until_zero-padded block_kind = refl
until_zero-padded get_data_kind = refl
until_zero-padded get_headers_kind = refl
until_zero-padded headers_kind = refl
until_zero-padded ping_kind = refl
until_zero-padded pong_kind = refl
until_zero-padded verack_kind = refl
until_zero-padded version_kind = refl
until_zero-padded send_compact_kind = refl

has_zero-padded : (kind : Kind) → has_zero (padded (get_name kind)) ≡ true
unfolding get_name has_zero
has_zero-padded block_kind = refl
has_zero-padded get_data_kind = refl
has_zero-padded get_headers_kind = refl
has_zero-padded headers_kind = refl
has_zero-padded ping_kind = refl
has_zero-padded pong_kind = refl
has_zero-padded verack_kind = refl
has_zero-padded version_kind = refl
has_zero-padded send_compact_kind = refl

pub length-encode_frame_header :
    (h : FrameHeader) (kind : Kind)
    → h.command ≡ get_name kind
    → length h.checksum ≡ 4
    → length (encode_frame_header h) ≡ 24
length-encode_frame_header h kind e n =
    let size : length (padded h.command) ≡ 12 = rw e (length-padded kind) in
    let magic = le_bytes 4 h.magic in
    let bytes = le_bytes 4 h.bytes in
    omega (
      arith,
      length-append magic (padded h.command ++ (bytes ++ h.checksum)),
      length-append (padded h.command) (bytes ++ h.checksum),
      length-append bytes h.checksum,
      length-le_bytes 4 h.magic,
      length-le_bytes 4 h.bytes,
      size,
      n,
    )

pub header-Appends : (h : FrameHeader) → Appends (λ w. write_header w h) (encode_frame_header h)
unfolding write_header write_zero_padded_string
header-Appends h =
    let magic = λ (w : Writer). write_le 4 w h.magic in
    let command = λ (w : Writer). write_zero_padded_string command_length w h.command in
    let bytes = λ (w : Writer). write_le 4 w h.bytes in
    let checksum = λ (w : Writer). write_bytes w h.checksum in
    Appends-then magic (λ w. checksum (bytes (command w))) _ _ (write_le-Appends 4 h.magic)
      (Appends-then command (λ w. checksum (bytes w)) _ _ (write_bytes-Appends (padded h.command))
        (Appends-then bytes checksum _ _ (write_le-Appends 4 h.bytes)
          (write_bytes-Appends h.checksum)))

-- A header of the same command takes the place of another.
pub header-Overwrites :
    (old h : FrameHeader) (kind : Kind)
    → old.command ≡ get_name kind
    → h.command ≡ get_name kind
    → length old.checksum ≡ 4
    → length h.checksum ≡ 4
    → Overwrites (λ w. write_header w h) (encode_frame_header old) (encode_frame_header h)
unfolding write_header write_zero_padded_string write_le le_bytes
header-Overwrites old h kind e e' n n' =
    let magic = λ (w : Writer). write_le 4 w h.magic in
    let command = λ (w : Writer). write_zero_padded_string command_length w h.command in
    let bytes = λ (w : Writer). write_le 4 w h.bytes in
    let checksum = λ (w : Writer). write_bytes w h.checksum in
    let size : length (padded old.command) ≡ 12 = rw e (length-padded kind) in
    let size' : length (padded h.command) ≡ 12 = rw e' (length-padded kind) in
    Overwrites-then magic (λ w. checksum (bytes (command w))) (le_bytes 4 old.magic)
      (le_bytes 4 h.magic) _ _
      (write_bytes-Overwrites (le_bytes 4 old.magic) (le_bytes 4 h.magic) (omega arith) refl)
      (Overwrites-then command (λ w. checksum (bytes w)) (padded old.command) (padded h.command) _ _
        (write_bytes-Overwrites (padded old.command) (padded h.command) (omega (arith, size))
          (omega (arith, size, size')))
        (Overwrites-then bytes checksum (le_bytes 4 old.bytes) (le_bytes 4 h.bytes) _ _
          (write_bytes-Overwrites (le_bytes 4 old.bytes) (le_bytes 4 h.bytes) (omega arith) refl)
          (write_bytes-Overwrites old.checksum h.checksum (omega (arith, n))
            (omega (arith, n, n')))))

pub header-Reads :
    (h : FrameHeader) (kind : Kind)
    → h.magic < 2 ^ 32
    → h.command ≡ get_name kind
    → h.bytes < 2 ^ 32
    → length h.checksum ≡ 4
    → Reads read_header (encode_frame_header h) h
unfolding read_header read_zero_padded_string
header-Reads h kind magic command bytes checksum =
    let size : length (padded h.command) ≡ 12 = rw command (length-padded kind) in
    let cut : until_zero (padded h.command) ≡ h.command = rw command (until_zero-padded kind) in
    let zero : has_zero (padded h.command) ≡ true = rw command (has_zero-padded kind) in
    let read : FrameHeader = record h { command = until_zero (padded h.command) } in
    subst (λ (c : Bytes). Reads read_header (encode_frame_header h) (record h { command = c })) cut
      (bind-Reads (read_le 4) _ _ _ h.magic read (read_le-Reads 4 h.magic (omega (arith, magic))) (
        bind-Reads (read_zero_padded_string 12) _ (padded h.command) _ read.command read
          (then-Reads (read_bytes 12) _ (padded h.command) (padded h.command) read.command
            (read_bytes-Reads 12 (padded h.command) size) (rw zero refl))
          (bind-Reads (read_le 4) _ _ _ h.bytes read
            (read_le-Reads 4 h.bytes (omega (arith, bytes)))
            (map-Reads (read_bytes 4) (λ checksum. record read { checksum = checksum }) h.checksum
              h.checksum (read_bytes-Reads 4 h.checksum checksum)))))

pub parse_header-encode_frame_header :
    (h : FrameHeader) (kind : Kind) (rest : Bytes)
    → h.magic < 2 ^ 32
    → h.command ≡ get_name kind
    → h.bytes < 2 ^ 32
    → length h.checksum ≡ 4
    → length (encode_frame_header h) + length rest < 2 ^ 64
    → parse_header (encode_frame_header h ++ rest) ≡ some h
unfolding parse_header
parse_header-encode_frame_header h kind rest magic command bytes checksum few =
    let read : Option (FrameHeader × Reader) → Option FrameHeader =
      λ o. elim o [ none ↦ none | some (found, r) ↦ some found ] in
    ap read (header-Reads h kind magic command bytes checksum [] rest (omega (arith, few)))
