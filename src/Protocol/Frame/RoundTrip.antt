-- ===== src/Protocol/Frame/RoundTrip.antt =====
-- The bytes of a framed message, and what Parse makes of them.
use hornet.Common.{
  ℕ, ◌+◌, ◌-◌, ◌%◌, ◌^◌, ◌≤◌, ◌<◌, ◌≡◌, refl, ap, ◌∙◌, [], ◌++◌, Bytes, length, length-append,
  length-take, take, drop, Option, none, some, Bool, true, false, not, ltb, leb, ◌==◌,
  bytes_eq_refl, arith,
}
use hornet.Encoding.RoundTrip.{between, at_end, drop-append, take-append, take-length}
use hornet.Encoding.Writer.{Writer, seek_pos}
use hornet.Protocol.Frame.{
  FrameHeader, header_length, max_message_size, write_header, Parsed, parsed, failed, bad_read,
  parse_header, is_complete_message, checksum_of, placeholder, real_header, finish_frame, frame,
  frame_to_buffer, check_payload, parse,
}
use hornet.Protocol.Message.{Message, kind_of, get_name, create}
use hornet.Protocol.Message.Payload.{serialize, deserialize}
use hornet.Protocol.Message.RoundTrip.{
  encode_message, IsMessage, create-get_name, serialize-encode_message, message-Reads,
}
use hornet.Protocol.Transaction.{Hash}
use hornet.Protocol.Frame.Parts.{
  encode_frame_header, length-encode_frame_header, header-Appends, header-Overwrites,
  parse_header-encode_frame_header,
}
use mathlib.Core.List.{append_assoc, append-nil}
use mathlib.Core.Path.{subst}

parse_step :
    (double_sha256 : Bytes → Hash) (magic : ℕ) (buffer : Bytes) (h : FrameHeader)
    → header_length ≤ length buffer
    → parse_header buffer ≡ some h
    → parse double_sha256 magic buffer ≡ check_payload double_sha256 magic buffer h
unfolding parse
parse_step double_sha256 magic buffer h long e =
    let test : ltb (length buffer) header_length ≡ false = ground arith in
    let check : Option FrameHeader → Parsed = λ o. elim o [
      | none ↦ failed bad_read
      | some found ↦ check_payload double_sha256 magic buffer found
    ] in
    rw test (ap check e)

is_complete_message_step :
    (buffer : Bytes) (h : FrameHeader)
    → header_length ≤ length buffer
    → parse_header buffer ≡ some h
    → is_complete_message buffer ≡ some (leb (header_length + h.bytes) (length buffer))
unfolding is_complete_message
is_complete_message_step buffer h long e =
    let test : ltb (length buffer) header_length ≡ false = ground arith in
    let answer : Option FrameHeader → Option Bool = λ o. elim o [
      | none ↦ none
      | some found ↦ some (leb (header_length + found.bytes) (length buffer))
    ] in
    rw test (ap answer e)

module _ (double_sha256 : Bytes → Hash) (magic : ℕ) where
  -- The header of a message: its name, the size of its payload, and the checksum.
  abbrev pub header_of : Message → FrameHeader
  header_of m = record {
    magic = magic;
    command = get_name (kind_of m);
    bytes = length (encode_message m);
    checksum = checksum_of double_sha256 (encode_message m);
  }

  abbrev pub encode_frame : Message → Bytes
  encode_frame m = encode_frame_header (header_of m) ++ encode_message m

  module _ (hash_size : (bs : Bytes) → length (double_sha256 bs) ≡ 32) where
    pub length-checksum_of : (payload : Bytes) → length (checksum_of double_sha256 payload) ≡ 4
    length-checksum_of payload =
        omega (arith, length-take 4 (double_sha256 payload), hash_size payload)

    -- The size and the checksum that the framer takes from its positions.
    real_header-append :
        (command front payload : Bytes)
        → length payload ≤ max_message_size
        → real_header double_sha256 magic command
            (front ++ payload)
            (length front)
            (length (front ++ payload))
          ≡ record {
            magic = magic;
            command = command;
            bytes = length payload;
            checksum = checksum_of double_sha256 payload;
          }
    real_header-append command front payload few =
        let sizes = length-append front payload in
        let size : (length (front ++ payload) - length front) % 2 ^ 32 ≡ length payload =
          omega (arith, sizes) in
        rw (size, drop-append front payload, take-length payload) refl

    finish_frame_lem :
        (m : Message) (front : Bytes)
        → length (encode_message m) ≤ max_message_size
        → let old = encode_frame_header (placeholder magic (get_name (kind_of m))) in
          finish_frame double_sha256 magic
            (length front)
            (length (front ++ old))
            (get_name (kind_of m))
            (at_end ((front ++ old) ++ encode_message m))
          ≡ at_end (front ++ encode_frame m)
    unfolding finish_frame seek_pos
    finish_frame_lem m front few =
        let kind = kind_of m in
        let payload = encode_message m in
        let first = placeholder magic (get_name kind) in
        let old = encode_frame_header first in
        let new = encode_frame_header (header_of m) in
        let real = real_header-append (get_name kind) (front ++ old) payload few in
        let over =
          header-Overwrites first (header_of m) kind refl refl refl (length-checksum_of payload)
            front payload in
        let assoc = append_assoc front old payload in
        let end = length ((front ++ old) ++ payload) in
        let at : Bytes → Writer = λ b. record { buffer = b; pos = length front } in
        let size = length-encode_frame_header first kind refl refl in
        let size' =
          length-encode_frame_header (header_of m) kind refl (length-checksum_of payload) in
        let same : end ≡ length (front ++ (new ++ payload)) = omega (
          arith,
          size,
          size',
          length-append (front ++ old) payload,
          length-append front old,
          length-append front (new ++ payload),
          length-append new payload,
        ) in
        ap (λ h. seek_pos (write_header (at ((front ++ old) ++ payload)) h) end) real
        ∙ (ap (λ b. seek_pos (write_header (at b) (header_of m)) end) assoc
            ∙ (ap (λ w. seek_pos w end) over ∙ rw same refl))

    pub frame-encode_frame :
        (m : Message) (front : Bytes)
        → IsMessage m
        → length (encode_message m) ≤ max_message_size
        → frame double_sha256 magic (at_end front) m ≡ some (at_end (front ++ encode_frame m))
    unfolding frame
    frame-encode_frame m front h few =
        let name = get_name (kind_of m) in
        let first = placeholder magic name in
        let old = encode_frame_header first in
        let finish : Writer → Writer → Writer = λ headed written.
          finish_frame double_sha256 magic (length front) headed.pos name written in
        let close : Writer → Option Writer → Option Writer =
          λ headed o. elim o [ none ↦ none | some written ↦ some (finish headed written) ] in
        ap (λ headed. close headed (serialize headed m)) (header-Appends first front)
        ∙ (ap (close (at_end (front ++ old))) (serialize-encode_message m (front ++ old) h)
            ∙ ap some (finish_frame_lem m front few))

    module _ (magic_fits : magic < 2 ^ 32) where
      frame_start :
          (m : Message) (rest : Bytes)
          → length (encode_message m) ≤ max_message_size
          → 24 + length rest < 2 ^ 64
          → parse_header (encode_frame_header (header_of m) ++ rest) ≡ some (header_of m)
      frame_start m rest few small =
          let checked = length-checksum_of (encode_message m) in
          let size = length-encode_frame_header (header_of m) (kind_of m) refl checked in
          parse_header-encode_frame_header (header_of m) (kind_of m) rest magic_fits refl
            (omega (arith, few)) checked (omega (arith, size, small))

      parse-encode_frame :
          (m : Message) (rest : Bytes)
          → length (encode_message m) ≤ max_message_size
          → length (encode_frame m) + length rest < 2 ^ 64
          → parse double_sha256 magic (encode_frame m ++ rest)
            ≡ parsed (header_of m) (encode_message m)
      unfolding check_payload
      parse-encode_frame m rest few small =
          let h = header_of m in
          let payload = encode_message m in
          let head = encode_frame_header h in
          let whole = head ++ (payload ++ rest) in
          let size = length-encode_frame_header h (kind_of m) refl (length-checksum_of payload) in
          let sizes = length-append head payload in
          let sizes' = length-append payload rest in
          let sizes'' = length-append head (payload ++ rest) in
          let assoc = append_assoc head payload rest in
          let start =
            frame_start m (payload ++ rest) few (omega (arith, size, sizes, sizes', small)) in
          let own : not (magic == magic) ≡ false = ground arith in
          let complete : ltb (length whole - header_length) (length payload) ≡ false =
            ground (arith, size, sizes', sizes'') in
          let allowed : ltb max_message_size (length payload) ≡ false = ground (arith, few) in
          let behind : drop 24 whole ≡ payload ++ rest =
            subst (λ n. drop n whole ≡ payload ++ rest) size (drop-append head (payload ++ rest)) in
          let cut : take (length payload) (payload ++ rest) ≡ payload = take-append payload rest in
          let same = bytes_eq_refl (checksum_of double_sha256 payload) in
          let checked : check_payload double_sha256 magic whole h ≡ parsed h payload =
            rw (own, complete, allowed, behind, cut, same) refl in
          ap (parse double_sha256 magic) assoc
          ∙ (parse_step double_sha256 magic whole h (omega (arith, size, sizes'')) start ∙ checked)

      pub is_complete_message-append :
          (m : Message) (behind : Bytes)
          → length (encode_message m) ≤ max_message_size
          → 24 + length behind < 2 ^ 64
          → is_complete_message (encode_frame_header (header_of m) ++ behind)
            ≡ some (leb (length (encode_message m)) (length behind))
      is_complete_message-append m behind few small =
          let h = header_of m in
          let head = encode_frame_header h in
          let size =
            length-encode_frame_header h (kind_of m) refl (length-checksum_of (encode_message m)) in
          let sizes = length-append head behind in
          let test : leb (24 + length (encode_message m)) (length (head ++ behind))
              ≡ leb (length (encode_message m)) (length behind) =
            ground (arith, size, sizes) in
          is_complete_message_step (head ++ behind) h (omega (arith, size, sizes))
            (frame_start m behind few small)
          ∙ ap some test

pub frame_to_buffer-encode_frame :
    (double_sha256 : Bytes → Hash) (magic : ℕ)
    → ((bs : Bytes) → length (double_sha256 bs) ≡ 32)
    → (m : Message) → IsMessage m
    → length (encode_message m) ≤ max_message_size
    → frame_to_buffer double_sha256 magic m ≡ some (encode_frame double_sha256 magic m)
unfolding frame_to_buffer
frame_to_buffer-encode_frame double_sha256 magic hash_size m fits few =
    let contents : Option Writer → Option Bytes =
      λ o. elim o [ none ↦ none | some w ↦ some w.buffer ] in
    ap contents (frame-encode_frame double_sha256 magic hash_size m [] fits few)

-- With a hash of 32 bytes and magic bytes of four, for a message whose fields are in the ranges of the
-- wire format and whose payload is at most 4,000,000 bytes: Frame succeeds; its bytes, whatever
-- follows them, are a complete message, and Parse returns from them the header and the payload; the
-- class registered for the name in that header is the message's own; and its Deserialize returns the
-- message and stops at the end of the payload.
pub parse-frame :
    (double_sha256 : Bytes → Hash) (magic : ℕ)
    → ((bs : Bytes) → length (double_sha256 bs) ≡ 32)
    → magic < 2 ^ 32
    → (m : Message) (rest : Bytes) → IsMessage m
    → length (encode_message m) ≤ max_message_size
    → length (encode_frame double_sha256 magic m) + length rest < 2 ^ 64
    → (buffer : Bytes) × (h : FrameHeader) × (payload : Bytes) × (frame_to_buffer double_sha256
          magic m
        ≡ some buffer)
      × (is_complete_message (buffer ++ rest) ≡ some true)
      × (parse double_sha256 magic (buffer ++ rest) ≡ parsed h payload)
      × (create h.command ≡ some (kind_of m))
      × (deserialize (kind_of m) (between [] payload) ≡ some (m, between payload []))
parse-frame double_sha256 magic hash_size magic_fits m rest fits few small =
    let h = header_of double_sha256 magic m in
    let payload = encode_message m in
    let buffer = encode_frame double_sha256 magic m in
    let size =
      length-encode_frame_header h (kind_of m) refl
        (length-checksum_of double_sha256 magic hash_size payload) in
    let sizes = length-append (encode_frame_header h) payload in
    let sizes' = length-append payload rest in
    let enough : leb (length payload) (length (payload ++ rest)) ≡ true = ground (arith, sizes') in
    let read = message-Reads m fits [] [] (omega (arith, few)) in
    (
      buffer,
      h,
      payload,
      frame_to_buffer-encode_frame double_sha256 magic hash_size m fits few,
      (ap is_complete_message (append_assoc (encode_frame_header h) payload rest)
          ∙ (is_complete_message-append double_sha256 magic hash_size magic_fits m (payload ++ rest)
                few (omega (arith, size, sizes, sizes', small))
              ∙ ap some enough)),
      parse-encode_frame double_sha256 magic hash_size magic_fits m rest few small,
      create-get_name (kind_of m),
      subst (λ bs. deserialize (kind_of m) (between [] bs) ≡ some (m, between payload []))
          (append-nil payload) read,
    )
