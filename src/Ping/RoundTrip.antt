-- ===== src/Ping/RoundTrip.antt =====
-- mumble-protocol/src/ping.rs: the packets and their byte forms.
use atof.Prelude.{
  ℕ, ◌+◌, ◌^◌, ◌≤◌, ◌<◌, ◌≡◌, refl, sym, ap, ap₂, subst, ◌∙◌, List, [], ◌∷◌, ◌++◌, arith, length,
  take, drop, true, ◌==◌, ==_iff, Bool-cases, inl, inr, ◌↔◌, ok, All-take, All-drop, length-take,
  length-drop, take-append-drop, take-drop-append, take_all,
}
use atof.Prelude.Words.{
  IsU64, IsU32, IsByte, IsBytes, to_be_bytes, from_be_bytes, from_be-to_be, to_be-from_be,
  from_be-lt,
}
use atof.Ping.{
  PingPacket, PongPacket, slice, bytes_eq, ping_try_from, ping_to_bytes, pong_try_from,
  pong_to_bytes,
}

ping_try_from-to_bytes :
    (packet : PingPacket) → IsU64 packet.id → ping_try_from (ping_to_bytes packet) ≡ ok packet
unfolding ping_try_from ping_to_bytes
ping_try_from-to_bytes packet h =
    ap (λ (i : ℕ). ok (record { id = i })) (from_be-to_be 8 packet.id h)

bytes_eq→eq : (xs ys : List ℕ) → bytes_eq xs ys ≡ true → xs ≡ ys
bytes_eq→eq [] [] h = refl
bytes_eq→eq [] (y ∷ ys) h = cc
bytes_eq→eq (x ∷ xs) [] h = cc
bytes_eq→eq (x ∷ xs) (y ∷ ys) h = ground (arith, bytes_eq→eq xs ys)

module _ (buf : List ℕ) (bytes : IsBytes buf) where
  -- A number read from a slice is written back as that slice.
  field_back :
      (a n : ℕ)
      → a + n ≤ length buf
      → to_be_bytes n (from_be_bytes (take n (drop a buf))) ≡ take n (drop a buf)
  field_back a n h =
      to_be-from_be n (take n (drop a buf))
        (omega (arith, length-take n (drop a buf), length-drop a buf))
        (All-take IsByte n (drop a buf) (All-drop IsByte a buf bytes))

  field-lt : (a n : ℕ) → a + n ≤ length buf → from_be_bytes (take n (drop a buf)) < 256 ^ n
  field-lt a n h =
      let e : length (take n (drop a buf)) ≡ n =
        omega (arith, length-take n (drop a buf), length-drop a buf) in
      subst (λ (k : ℕ). from_be_bytes (take n (drop a buf)) < 256 ^ k) e
        (from_be-lt (take n (drop a buf))
          (All-take IsByte n (drop a buf) (All-drop IsByte a buf bytes)))

ping_try_from-eq-ok :
    (buf : List ℕ) (packet : PingPacket)
    → ping_try_from buf ≡ ok packet
    → (length buf ≡ 12)
      × (bytes_eq (slice 0 4 buf) (0 ∷ 0 ∷ 0 ∷ 0 ∷ []) ≡ true)
      × (packet.id ≡ from_be_bytes (slice 4 12 buf))
unfolding ping_try_from
ping_try_from-eq-ok buf packet e = elim (Bool-cases (length buf == 12)) [
  | inl sized ↦ elim (Bool-cases (bytes_eq (slice 0 4 buf) (0 ∷ 0 ∷ 0 ∷ 0 ∷ []))) [
    | inl zeros ↦
        let e' : ok (record { id = from_be_bytes (slice 4 12 buf) }) ≡ ok packet =
          rw (sized, zeros) at e in
        ((==_iff (length buf) 12).0 sized, zeros, cc)
    | inr other ↦ let e' = rw (sized, other) at e in cc
  ]
  | inr short ↦ let e' = rw short at e in cc
]

-- The four zeros and the eight bytes of the id are all of the buffer.
whole_ping : (buf : List ℕ) → length buf ≡ 12 → take 4 buf ++ take 8 (drop 4 buf) ≡ buf
whole_ping buf h =
    ap (λ (t : List ℕ). take 4 buf ++ t)
      (take_all 8 (drop 4 buf) (omega (arith, length-drop 4 buf)))
    ∙ take-append-drop 4 buf

-- On bytes, parsing gives a packet exactly if the packet has a 64-bit id and is written as those
-- bytes.
pub ping_try_from_iff :
    (buf : List ℕ) (packet : PingPacket)
    → IsBytes buf
    → (ping_try_from buf ≡ ok packet) ↔ ((ping_to_bytes packet ≡ buf) × IsU64 packet.id)
ping_try_from_iff buf packet bytes = (there, λ h. rw (← h.0) (ping_try_from-to_bytes packet h.1))
  where
    there : ping_try_from buf ≡ ok packet → (ping_to_bytes packet ≡ buf) × IsU64 packet.id
    there e =
        let (size, zeros, id) = ping_try_from-eq-ok buf packet e in
        let back : to_be_bytes 8 packet.id ≡ take 8 (drop 4 buf) =
          ap (to_be_bytes 8) id ∙ field_back buf bytes 4 8 (omega (arith, size)) in
        (
          unfold ping_to_bytes in
              (ap₂ ◌++◌ (sym (bytes_eq→eq (take 4 buf) (0 ∷ 0 ∷ 0 ∷ 0 ∷ []) zeros)) back
                ∙ whole_ping buf size),
          omega (arith, id, field-lt buf bytes 4 8 (omega (arith, size))),
        )

pub pong_try_from-to_bytes :
    (packet : PongPacket)
    → IsU64 packet.id
    → IsU32 packet.version
    → IsU32 packet.users
    → IsU32 packet.max_users
    → IsU32 packet.bandwidth
    → pong_try_from (pong_to_bytes packet) ≡ ok packet
unfolding pong_try_from pong_to_bytes
pong_try_from-to_bytes packet hi hv hu hm hb = λ k. ok (record {
  id = from_be-to_be 8 packet.id hi k;
  version = from_be-to_be 4 packet.version hv k;
  users = from_be-to_be 4 packet.users hu k;
  max_users = from_be-to_be 4 packet.max_users hm k;
  bandwidth = from_be-to_be 4 packet.bandwidth hb k;
})

record PongFields (buf : List ℕ) (packet : PongPacket) : Type 0 where
  size : length buf ≡ 24
  version : packet.version ≡ from_be_bytes (slice 0 4 buf)
  id : packet.id ≡ from_be_bytes (slice 4 12 buf)
  users : packet.users ≡ from_be_bytes (slice 12 16 buf)
  max_users : packet.max_users ≡ from_be_bytes (slice 16 20 buf)
  bandwidth : packet.bandwidth ≡ from_be_bytes (slice 20 24 buf)

pong_try_from-eq-ok :
    (buf : List ℕ) (packet : PongPacket) → pong_try_from buf ≡ ok packet → PongFields buf packet
unfolding pong_try_from
pong_try_from-eq-ok buf packet e = elim (Bool-cases (length buf == 24)) [
  | inl sized ↦
      let e' : ok (record {
        version = from_be_bytes (slice 0 4 buf);
        id = from_be_bytes (slice 4 12 buf);
        users = from_be_bytes (slice 12 16 buf);
        max_users = from_be_bytes (slice 16 20 buf);
        bandwidth = from_be_bytes (slice 20 24 buf);
      })
          ≡ ok packet =
        rw sized at e in
      record {
        size = (==_iff (length buf) 24).0 sized;
        version = cc;
        id = cc;
        users = cc;
        max_users = cc;
        bandwidth = cc;
      }
  | inr short ↦ let e' = rw short at e in cc
]

-- The five slices are all of the buffer.
whole_pong :
    (buf : List ℕ)
    → length buf ≡ 24
    → take 4 buf
        ++ (take 8 (drop 4 buf)
            ++ (take 4 (drop 12 buf) ++ (take 4 (drop 16 buf) ++ take 4 (drop 20 buf))))
      ≡ buf
whole_pong buf h =
    rw
      (
        take_all 4 (drop 20 buf) (omega (arith, length-drop 20 buf)),
        take-drop-append 16 4 buf,
        take-drop-append 12 4 buf,
        take-drop-append 4 8 buf,
      )
      (take-append-drop 4 buf)

abbrev pub PongFits : PongPacket → Type 0
PongFits packet =
    IsU64 packet.id
    × IsU32 packet.version
    × IsU32 packet.users
    × IsU32 packet.max_users
    × IsU32 packet.bandwidth

-- On bytes, parsing gives a pong exactly if its fields fit their widths and it is written as those
-- bytes.
pub pong_try_from_iff :
    (buf : List ℕ) (packet : PongPacket)
    → IsBytes buf
    → (pong_try_from buf ≡ ok packet) ↔ ((pong_to_bytes packet ≡ buf) × PongFits packet)
pong_try_from_iff buf packet bytes =
    (there, λ h. rw (← h.0) (pong_try_from-to_bytes packet h.1.0 h.1.1 h.1.2 h.1.3 h.1.4))
  where
    there : pong_try_from buf ≡ ok packet → (pong_to_bytes packet ≡ buf) × PongFits packet
    there e =
        let f = pong_try_from-eq-ok buf packet e in
        let size = f.size in
        let v : to_be_bytes 4 packet.version ≡ take 4 buf =
          ap (to_be_bytes 4) f.version ∙ field_back buf bytes 0 4 (omega (arith, size)) in
        let i : to_be_bytes 8 packet.id ≡ take 8 (drop 4 buf) =
          ap (to_be_bytes 8) f.id ∙ field_back buf bytes 4 8 (omega (arith, size)) in
        let u : to_be_bytes 4 packet.users ≡ take 4 (drop 12 buf) =
          ap (to_be_bytes 4) f.users ∙ field_back buf bytes 12 4 (omega (arith, size)) in
        let m : to_be_bytes 4 packet.max_users ≡ take 4 (drop 16 buf) =
          ap (to_be_bytes 4) f.max_users ∙ field_back buf bytes 16 4 (omega (arith, size)) in
        let b : to_be_bytes 4 packet.bandwidth ≡ take 4 (drop 20 buf) =
          ap (to_be_bytes 4) f.bandwidth ∙ field_back buf bytes 20 4 (omega (arith, size)) in
        (
          unfold pong_to_bytes in
              (ap₂ ◌++◌ v (ap₂ ◌++◌ i (ap₂ ◌++◌ u (ap₂ ◌++◌ m b))) ∙ whole_pong buf size),
          (
            omega (arith, f.id, field-lt buf bytes 4 8 (omega (arith, size))),
            omega (arith, f.version, field-lt buf bytes 0 4 (omega (arith, size))),
            omega (arith, f.users, field-lt buf bytes 12 4 (omega (arith, size))),
            omega (arith, f.max_users, field-lt buf bytes 16 4 (omega (arith, size))),
            omega (arith, f.bandwidth, field-lt buf bytes 20 4 (omega (arith, size))),
          ),
        )
