-- ===== src/Control/Framing.antt =====
-- mumble-protocol/src/control.rs: what `RawControlCodec` reads of a stream.
use atof.Prelude.{
  ℕ, zero, suc, ◌+◌, ◌^◌, ◌≤◌, ◌<◌, ◌≡◌, ◌≢◌, refl, ap, ap₂, ◌∙◌, ◌↔◌, inl, inr, List, [], ◌∷◌,
  ◌++◌, true, false, none, some, arith, ltb, leb, Bool-cases, length, take, drop, ok, err,
  other_error, length-append, length-take, take-append_length, drop-append_length, take-append-drop,
  All-take,
}
use atof.Prelude.Words.{
  IsByte, IsBytes, u32, to_be_bytes, from_be_bytes, from_be-to_be, to_be-from_be,
}
use atof.Control.Raw.{RawControlPacket, max_len, raw_decode, raw_encode}

-- The bytes of a length, and the packet behind them.
raw_decode-frame :
    (i0 i1 l0 l1 l2 l3 : ℕ) (body rest : List ℕ)
    → from_be_bytes (l0 ∷ l1 ∷ l2 ∷ l3 ∷ []) ≡ length body
    → length body ≤ max_len
    → raw_decode (i0 ∷ i1 ∷ l0 ∷ l1 ∷ l2 ∷ l3 ∷ (body ++ rest))
      ≡ (some (ok (some (record { id = from_be_bytes (i0 ∷ i1 ∷ []); bytes = body }))), rest)
unfolding raw_decode
raw_decode-frame i0 i1 l0 l1 l2 l3 body rest e h =
    let big : ltb max_len (from_be_bytes (l0 ∷ l1 ∷ l2 ∷ l3 ∷ [])) ≡ false = ground arith in
    let long : leb 6 (length (i0 ∷ i1 ∷ l0 ∷ l1 ∷ l2 ∷ l3 ∷ (body ++ rest))) ≡ true =
      ground arith in
    let whole : leb (6 + length body) (length (i0 ∷ i1 ∷ l0 ∷ l1 ∷ l2 ∷ l3 ∷ (body ++ rest)))
        ≡ true =
      ground (arith, length-append body rest) in
    let six : 6 + length body ≡ suc (suc (suc (suc (suc (suc (length body)))))) = omega arith in
    rw (long, big, e, whole, six, take-append_length body rest, drop-append_length body rest) refl

-- A frame longer than the limit is refused, and stays in the buffer.
raw_decode-long :
    (i0 i1 l0 l1 l2 l3 : ℕ) (rest : List ℕ)
    → max_len < from_be_bytes (l0 ∷ l1 ∷ l2 ∷ l3 ∷ [])
    → raw_decode (i0 ∷ i1 ∷ l0 ∷ l1 ∷ l2 ∷ l3 ∷ rest)
      ≡ (some (err other_error), i0 ∷ i1 ∷ l0 ∷ l1 ∷ l2 ∷ l3 ∷ rest)
unfolding raw_decode
raw_decode-long i0 i1 l0 l1 l2 l3 rest h = ground arith

raw_decode-short : (buf : List ℕ) → length buf < 6 → raw_decode buf ≡ (some (ok none), buf)
unfolding raw_decode
raw_decode-short buf h = ground arith

-- While a frame is incomplete, nothing is read.
raw_decode-incomplete :
    (i0 i1 l0 l1 l2 l3 : ℕ) (rest : List ℕ)
    → from_be_bytes (l0 ∷ l1 ∷ l2 ∷ l3 ∷ []) ≤ max_len
    → length rest < from_be_bytes (l0 ∷ l1 ∷ l2 ∷ l3 ∷ [])
    → raw_decode (i0 ∷ i1 ∷ l0 ∷ l1 ∷ l2 ∷ l3 ∷ rest)
      ≡ (some (ok none), i0 ∷ i1 ∷ l0 ∷ l1 ∷ l2 ∷ l3 ∷ rest)
unfolding raw_decode
raw_decode-incomplete i0 i1 l0 l1 l2 l3 rest h short = ground arith

-- The packets that `decode` can return: a 16-bit id, and a message within the limit.
abbrev pub Framed : RawControlPacket → Type 0
Framed item = (item.id < 2 ^ 16) × (length item.bytes ≤ max_len)

length_back :
    (bytes : List ℕ)
    → length bytes < 2 ^ 32
    → from_be_bytes (to_be_bytes 4 (u32 (length bytes))) ≡ length bytes
length_back bytes h = from_be-to_be 4 (u32 (length bytes)) (omega arith) ∙ omega arith

pub raw_decode-raw_encode :
    (item : RawControlPacket) (rest : List ℕ)
    → Framed item
    → raw_decode (raw_encode item [] ++ rest) ≡ (some (ok (some item)), rest)
unfolding raw_encode
raw_decode-raw_encode item rest (hid, hlen) =
    raw_decode-frame _ _ _ _ _ _ item.bytes rest (length_back item.bytes (omega arith)) hlen
    ∙ ap (λ (i : ℕ). (some (ok (some (record { id = i; bytes = item.bytes }))), rest))
        (from_be-to_be 2 item.id hid)

-- The bytes of a decoded frame are those that the packet is written as.
encode_frame :
    (i0 i1 l0 l1 l2 l3 : ℕ) (body rest : List ℕ)
    → IsBytes (i0 ∷ i1 ∷ l0 ∷ l1 ∷ l2 ∷ l3 ∷ body)
    → from_be_bytes (l0 ∷ l1 ∷ l2 ∷ l3 ∷ []) ≡ length body
    → raw_encode (record { id = from_be_bytes (i0 ∷ i1 ∷ []); bytes = body }) [] ++ rest
      ≡ i0 ∷ i1 ∷ l0 ∷ l1 ∷ l2 ∷ l3 ∷ (body ++ rest)
unfolding raw_encode
encode_frame i0 i1 l0 l1 l2 l3 body rest (b0, (b1, (c0, (c1, (c2, (c3, bytes)))))) e =
    let len : u32 (length body) ≡ from_be_bytes (l0 ∷ l1 ∷ l2 ∷ l3 ∷ []) = omega arith in
    let front : to_be_bytes 4 (u32 (length body)) ≡ l0 ∷ l1 ∷ l2 ∷ l3 ∷ [] =
      ap (to_be_bytes 4) len
      ∙ to_be-from_be 4 (l0 ∷ l1 ∷ l2 ∷ l3 ∷ []) refl (c0, (c1, (c2, (c3, tt)))) in
    ap₂ (λ (is ls : List ℕ). (is ++ (ls ++ body)) ++ rest)
      (to_be-from_be 2 (i0 ∷ i1 ∷ []) refl (b0, (b1, tt))) front

split_tail :
    (i0 i1 l0 l1 l2 l3 : ℕ) (tail rest : List ℕ) (item : RawControlPacket)
    → IsBytes (i0 ∷ i1 ∷ l0 ∷ l1 ∷ l2 ∷ l3 ∷ tail)
    → raw_decode (i0 ∷ i1 ∷ l0 ∷ l1 ∷ l2 ∷ l3 ∷ tail) ≡ (some (ok (some item)), rest)
    → (raw_encode item [] ++ rest ≡ i0 ∷ i1 ∷ l0 ∷ l1 ∷ l2 ∷ l3 ∷ tail) × Framed item
split_tail i0 i1 l0 l1 l2 l3 tail rest item (b0, (b1, (c0, (c1, (c2, (c3, bytes)))))) e =
    let len = from_be_bytes (l0 ∷ l1 ∷ l2 ∷ l3 ∷ []) in
    elim (Bool-cases (ltb max_len len)) [
      | inl big ↦ let e' = raw_decode-long i0 i1 l0 l1 l2 l3 tail (ground arith) in cc
      | inr fits ↦ elim (Bool-cases (ltb (length tail) len)) [
        | inl short ↦
            let e' = raw_decode-incomplete i0 i1 l0 l1 l2 l3 tail (ground arith) (ground arith) in
            cc
        | inr whole ↦
            let body = take len tail in
            let size : len ≡ length body = ground (arith, length-take len tail) in
            let small : length body ≤ max_len = ground arith in
            let e' = raw_decode-frame i0 i1 l0 l1 l2 l3 body (drop len tail) size small in
            let same = take-append-drop len tail in
            let back =
              encode_frame i0 i1 l0 l1 l2 l3 body (drop len tail)
                (b0, (b1, (c0, (c1, (c2, (c3, All-take IsByte len tail bytes)))))) size in
            let found : item ≡ record { id = from_be_bytes (i0 ∷ i1 ∷ []); bytes = body } = cc in
            let left : rest ≡ drop len tail = cc in
            rw (found, left)
              (
                back ∙ ap (λ (t : List ℕ). i0 ∷ i1 ∷ l0 ∷ l1 ∷ l2 ∷ l3 ∷ t) same,
                (omega arith, small),
              )
      ]
    ]

raw_decode-eq-ok :
    (buf rest : List ℕ) (item : RawControlPacket)
    → IsBytes buf
    → raw_decode buf ≡ (some (ok (some item)), rest)
    → (raw_encode item [] ++ rest ≡ buf) × Framed item
raw_decode-eq-ok (i0 ∷ i1 ∷ l0 ∷ l1 ∷ l2 ∷ l3 ∷ tail) rest item bytes e =
    split_tail i0 i1 l0 l1 l2 l3 tail rest item bytes e
raw_decode-eq-ok [] rest item bytes e = let e' = raw_decode-short [] (omega arith) in cc
raw_decode-eq-ok (a ∷ []) rest item bytes e = let e' = raw_decode-short (a ∷ []) (omega arith) in cc
raw_decode-eq-ok (a ∷ b ∷ []) rest item bytes e =
    let e' = raw_decode-short (a ∷ b ∷ []) (omega arith) in cc
raw_decode-eq-ok (a ∷ b ∷ c ∷ []) rest item bytes e =
    let e' = raw_decode-short (a ∷ b ∷ c ∷ []) (omega arith) in cc
raw_decode-eq-ok (a ∷ b ∷ c ∷ d ∷ []) rest item bytes e =
    let e' = raw_decode-short (a ∷ b ∷ c ∷ d ∷ []) (omega arith) in cc
raw_decode-eq-ok (a ∷ b ∷ c ∷ d ∷ f ∷ []) rest item bytes e =
    let e' = raw_decode-short (a ∷ b ∷ c ∷ d ∷ f ∷ []) (omega arith) in cc

-- On bytes, the raw codec decodes a packet and leaves some bytes exactly if the packet's encoding
-- and those bytes are the buffer, the packet's id has 16 bits, and its message is within the limit.
pub raw_decode_iff :
    (buf rest : List ℕ) (item : RawControlPacket)
    → IsBytes buf
    → (raw_decode buf ≡ (some (ok (some item)), rest))
      ↔ ((raw_encode item [] ++ rest ≡ buf) × Framed item)
raw_decode_iff buf rest item bytes =
    (raw_decode-eq-ok buf rest item bytes, λ h. rw (← h.0) (raw_decode-raw_encode item rest h.1))

-- Of a packet that is within the limit, every proper prefix of its encoding is left in the buffer,
-- and the codec waits for more.
raw_decode-prefix :
    (item : RawControlPacket) (n : ℕ)
    → Framed item
    → n < 6 + length item.bytes
    → raw_decode (take n (raw_encode item [])) ≡ (some (ok none), take n (raw_encode item []))
unfolding raw_encode
raw_decode-prefix item zero framed h = raw_decode-short _ (omega arith)
raw_decode-prefix item (suc zero) framed h = raw_decode-short _ (omega arith)
raw_decode-prefix item (suc (suc zero)) framed h = raw_decode-short _ (omega arith)
raw_decode-prefix item (suc (suc (suc zero))) framed h = raw_decode-short _ (omega arith)
raw_decode-prefix item (suc (suc (suc (suc zero)))) framed h = raw_decode-short _ (omega arith)
raw_decode-prefix item (suc (suc (suc (suc (suc zero))))) framed h =
    raw_decode-short _ (omega arith)
raw_decode-prefix item (suc (suc (suc (suc (suc (suc n)))))) (hid, hlen) h =
    let back = length_back item.bytes (omega arith) in
    raw_decode-incomplete _ _ _ _ _ _ (take n item.bytes) (omega (arith, back))
      (omega (arith, back, length-take n item.bytes))

-- The raw codec takes no more of the buffer than there is.
pub raw_decode-no_panic : (buf : List ℕ) → (raw_decode buf).0 ≢ none
unfolding raw_decode
raw_decode-no_panic buf e = ground arith

-- A message beyond the limit, of less than 2 ^ 32 bytes, is encoded all the same, but the codec
-- refuses to decode it, and leaves it in the buffer.
pub raw_decode-oversized :
    (item : RawControlPacket) (rest : List ℕ)
    → max_len < length item.bytes
    → length item.bytes < 2 ^ 32
    → raw_decode (raw_encode item [] ++ rest) ≡ (some (err other_error), raw_encode item [] ++ rest)
unfolding raw_encode
raw_decode-oversized item rest big small =
    raw_decode-long _ _ _ _ _ _ (item.bytes ++ rest) (omega (arith, length_back item.bytes small))
