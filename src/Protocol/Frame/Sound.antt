-- ===== src/Protocol/Frame/Sound.antt =====
-- What a buffer holds that Parse accepts.
use hornet.Common.{
  ℕ, ◌-◌, ◌≤◌, ◌≡◌, refl, Bytes, length, length-take, length-drop, take, drop, some, not, ltb, ◌==◌,
  bytes_eq, bytes_eq→eq, if_split, option_split, arith,
}
use hornet.Protocol.Frame.{
  FrameHeader, header_length, max_message_size, Parsed, parsed, failed, parse_header, checksum_of,
  check_payload, parse,
}
use hornet.Protocol.Transaction.{Hash}
use mathlib.Core.Path.{subst}

-- What Parse promises of the header and the payload that it returns.
pub record IsParsed (double_sha256 : Bytes → Hash) (magic : ℕ) (buffer : Bytes) (h : FrameHeader)
    (payload : Bytes) : Type 0 where
  pub long_enough : header_length ≤ length buffer
  pub read : parse_header buffer ≡ some h
  pub right_magic : h.magic ≡ magic
  pub allowed : h.bytes ≤ max_message_size
  pub contents : payload ≡ take h.bytes (drop header_length buffer)
  pub size : length payload ≡ h.bytes
  pub right_checksum : h.checksum ≡ checksum_of double_sha256 payload

-- A failure is not spoken of.
abbrev Promise : (Bytes → Hash) → ℕ → Bytes → Parsed → Type 0
Promise double_sha256 magic buffer (parsed h payload) =
    IsParsed double_sha256 magic buffer h payload
Promise double_sha256 magic buffer (failed e) = Unit {0}

module _ (double_sha256 : Bytes → Hash) (magic : ℕ) (buffer : Bytes) where
  check_payload-Promise :
      (h : FrameHeader)
      → header_length ≤ length buffer
      → parse_header buffer ≡ some h
      → Promise double_sha256 magic buffer (check_payload double_sha256 magic buffer h)
  unfolding check_payload
  check_payload-Promise h long read =
      let P = Promise double_sha256 magic buffer in
      let payload = take h.bytes (drop header_length buffer) in
      let kept = length-take h.bytes (drop header_length buffer) in
      let behind = length-drop header_length buffer in
      if_split P (not (h.magic == magic)) _ _ (λ _. tt)
        λ own.
          if_split P (ltb (length buffer - header_length) h.bytes) _ _ (λ _. tt)
            λ complete.
              if_split P (ltb max_message_size h.bytes) _ _ (λ _. tt)
                λ small.
                  if_split P (bytes_eq h.checksum (checksum_of double_sha256 payload)) _ _
                    (λ same. record {
                      long_enough = long;
                      read = read;
                      right_magic = ground (arith, own);
                      allowed = ground (arith, small);
                      contents = refl;
                      size = ground (arith, kept, behind, complete);
                      right_checksum =
                          bytes_eq→eq h.checksum (checksum_of double_sha256 payload) same;
                    })
                    λ _. tt

  parse-Promise : Promise double_sha256 magic buffer (parse double_sha256 magic buffer)
  unfolding parse
  parse-Promise =
      let P = Promise double_sha256 magic buffer in
      if_split P (ltb (length buffer) header_length) _ _ (λ _. tt)
        λ long.
          option_split P (parse_header buffer) _ (λ h. check_payload double_sha256 magic buffer h)
            tt λ h read. check_payload-Promise h (ground (arith, long)) read

-- A header and a payload that Parse returns from a buffer are what stands at its start: the header is
-- the one read from the first 24 bytes, with the expected magic bytes, a size of at most 4,000,000 and
-- the checksum of the payload, which is all of the announced bytes behind the header.
pub parse_sound :
    (double_sha256 : Bytes → Hash) (magic : ℕ) (buffer : Bytes) (h : FrameHeader) (payload : Bytes)
    → parse double_sha256 magic buffer ≡ parsed h payload
    → IsParsed double_sha256 magic buffer h payload
parse_sound double_sha256 magic buffer h payload e =
    subst (Promise double_sha256 magic buffer) e (parse-Promise double_sha256 magic buffer)
