-- ===== src/Protocol/Frame/Overwrite.antt =====
-- Writes of src/hornetlib/encoding/writer.h over bytes that stand in the buffer already.
use hornet.Common.{
  ◌+◌, ◌-◌, ◌≡◌, ◌<◌, false, refl, sym, ◌++◌, Bytes, length, length-append, drop, arith, ltb, ◌==◌,
}
use hornet.Encoding.RoundTrip.{drop-append, take-append, take-length}
use hornet.Encoding.Writer.{Writer, write_bytes}
use Prim.Native.Nat.{min}
use mathlib.Core.List.{append_assoc}

-- The write puts the new bytes in the place of the old ones, and stops behind them.
abbrev pub Overwrites : (Writer → Writer) → Bytes → Bytes → Type 0
Overwrites write old bs =
    (front behind : Bytes)
    → write (record { buffer = front ++ (old ++ behind); pos = length front })
      ≡ record { buffer = front ++ (bs ++ behind); pos = length (front ++ bs) }

pub Overwrites-then :
    (f g : Writer → Writer) (old bs old' bs' : Bytes)
    → Overwrites f old bs
    → Overwrites g old' bs'
    → Overwrites (λ w. g (f w)) (old ++ old') (bs ++ bs')
Overwrites-then f g old bs old' bs' hf hg front behind =
    let first = hf front (old' ++ behind) in
    let second = hg (front ++ bs) behind in
    rw
      (
        append_assoc old old' behind,
        first,
        sym (append_assoc front bs (old' ++ behind)),
        second,
        append_assoc front bs (bs' ++ behind),
        append_assoc bs bs' behind,
        append_assoc front bs bs',
      )
      refl

drop-two : (xs ys zs : Bytes) → drop (length xs + length ys) (xs ++ (ys ++ zs)) ≡ zs
drop-two xs ys zs =
    rw (sym (length-append xs ys), sym (append_assoc xs ys zs)) (drop-append (xs ++ ys) zs)

pub write_bytes-Overwrites :
    (old bs : Bytes)
    → 0 < length old
    → length old ≡ length bs
    → Overwrites (λ w. write_bytes w bs) old bs
unfolding write_bytes
write_bytes-Overwrites old bs some_old e front behind =
    let whole = front ++ (old ++ behind) in
    let sizes = length-append front (old ++ behind) in
    let sizes' = length-append old behind in
    let inside : (length front == length whole) ≡ false = ground (arith, sizes, sizes') in
    let all : min (length whole - length front) (length bs) ≡ length bs =
      omega (arith, sizes, sizes', e) in
    let enough : ltb (length bs) (length bs) ≡ false = ground arith in
    let kept : drop (length front + length bs) whole ≡ behind =
      rw (sym e) (drop-two front old behind) in
    rw
      (
        inside,
        all,
        enough,
        take-append front (old ++ behind),
        take-length bs,
        kept,
        length-append front bs,
      )
      refl
