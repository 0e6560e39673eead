-- ===== src/Protocol/Frame/Prefix.antt =====
-- The beginnings of a framed message.
use hornet.Common.{
  ℕ, zero, suc, ◌∷◌, ◌-◌, ◌^◌, ◌≤◌, ◌<◌, ◌≡◌, refl, sym, ap, ◌∙◌, [], ◌++◌, Bytes, length,
  length-append, length-take, take, some, true, false, ltb, leb, arith, Bool-cases, inl, inr,
  ltb→lt,
}
use hornet.Protocol.Frame.{max_message_size, is_complete_message, frame_to_buffer}
use hornet.Protocol.Message.{Message, kind_of}
use hornet.Protocol.Message.RoundTrip.{encode_message, IsMessage}
use hornet.Protocol.Transaction.{Hash}
use hornet.Protocol.Frame.Parts.{encode_frame_header, length-encode_frame_header}
use mathlib.Core.Option.{some_inj}
use mathlib.Core.Path.{subst}
use hornet.Protocol.Frame.RoundTrip.{
  header_of, encode_frame, length-checksum_of, frame_to_buffer-encode_frame,
  is_complete_message-append,
}

take_beyond :
    (xs ys : Bytes) (k : ℕ) → length xs ≤ k → take k (xs ++ ys) ≡ xs ++ take (k - length xs) ys
take_beyond [] ys k h = let e : k - 0 ≡ k = omega arith in rw e refl
take_beyond (x ∷ xs) ys zero h = absurd (omega (arith, h))
take_beyond (x ∷ xs) ys (suc k) h =
    let same : k - length xs ≡ suc k - suc (length xs) = omega arith in
    ap (◌∷◌ x) (take_beyond xs ys k (omega (arith, h)) ∙ ap (λ n. xs ++ take n ys) same)

is_complete_message_short :
    (buffer : Bytes) → length buffer < 24 → is_complete_message buffer ≡ some false
unfolding is_complete_message
is_complete_message_short buffer h =
    let test : ltb (length buffer) 24 ≡ true = ground arith in rw test refl

-- With a hash of 32 bytes, magic bytes of four and a payload of at most 4,000,000 bytes: no proper
-- prefix of the bytes of a framed message is taken for a complete message.
pub is_complete_message-take :
    (double_sha256 : Bytes → Hash) (magic : ℕ)
    → ((bs : Bytes) → length (double_sha256 bs) ≡ 32)
    → magic < 2 ^ 32
    → (m : Message) (buffer : Bytes) (k : ℕ) → IsMessage m
    → length (encode_message m) ≤ max_message_size
    → frame_to_buffer double_sha256 magic m ≡ some buffer
    → k < length buffer
    → is_complete_message (take k buffer) ≡ some false
is_complete_message-take double_sha256 magic hash_size magic_fits m buffer k fits few e short =
    let h = header_of double_sha256 magic m in
    let head = encode_frame_header h in
    let payload = encode_message m in
    let whole = encode_frame double_sha256 magic m in
    let size =
      length-encode_frame_header h (kind_of m) refl
        (length-checksum_of double_sha256 magic hash_size payload) in
    let sizes = length-append head payload in
    let framed = frame_to_buffer-encode_frame double_sha256 magic hash_size m fits few in
    let same : buffer ≡ whole = some_inj.0 (sym e ∙ framed) in
    let short' : k < length whole = subst (λ bs. k < length bs) same short in
    let length-prefix = length-take k whole in
    rw same (elim (Bool-cases (ltb k 24)) [
      | inl below ↦
          is_complete_message_short (take k whole)
            (omega (arith, length-prefix, ltb→lt k 24 below, size, sizes))
      | inr above ↦
          let rest = take (k - length head) payload in
          let cut = length-take (k - length head) payload in
          let far : 24 ≤ k = ground (arith, above) in
          let enough : length head ≤ k = omega (arith, size, far) in
          let missing : leb (length payload) (length rest) ≡ false =
            ground (arith, cut, short', sizes, size, enough) in
          ap is_complete_message (take_beyond head payload k enough)
          ∙ (is_complete_message-append double_sha256 magic hash_size magic_fits m rest few
                (omega (arith, cut, few))
              ∙ ap some missing)
    ])
