-- ===== src/Crypt/Replay/Window.antt =====
-- mumble-protocol/src/crypt.rs: the history of the last 30 nonces behind that of a receiver.
use atof.Prelude.{
  ℕ, ◌+◌, ◌^◌, ◌≤◌, ◌<◌, ◌≡◌, ◌≢◌, sym, ap, ◌∙◌, List, [], ◌∷◌, Bool, true, false, arith, length,
  get_or, set, length-set, All, get_or-set_self, get_or-set_other,
}
use atof.Prelude.Words.{u8, shr}
use atof.Crypt.State.{CryptState, accept, arrival, count_packet}
use atof.Crypt.Session.{arrival-accept}

-- No nonce occurs twice.
pub data Distinct : List ℕ → Type 0 where
  none_yet : Distinct []
  another : {n : ℕ} {ns : List ℕ} → All (λ (m : ℕ). n ≢ m) ns → Distinct ns → Distinct (n ∷ ns)

-- The accepted nonce `n` is not beyond the receiver's, and the history holds it while it is one of
-- the last 30.
pub record Seen (s : CryptState) (n : ℕ) : Type 0 where
  pub behind : n ≤ s.decrypt_nonce
  pub held : s.decrypt_nonce < n + 30 → get_or s.decrypt_history (u8 n) 0 ≡ u8 (shr n 8)

-- A packet in order or ahead moves the nonce forward by 127 at most.
arrival_forward :
    (s : CryptState) (nonce_0 nonce lost : ℕ)
    → s.decrypt_nonce + 127 < 2 ^ 128
    → nonce_0 < 256
    → arrival s nonce_0 ≡ accept nonce false lost
    → (s.decrypt_nonce < nonce) × (nonce ≤ s.decrypt_nonce + 127)
unfolding arrival
arrival_forward s nonce_0 nonce lost h hb e = (ground arith, ground arith)

-- A late packet is one of the last 30, and the history does not hold it.
arrival_behind :
    (s : CryptState) (nonce_0 nonce lost : ℕ)
    → 30 ≤ s.decrypt_nonce
    → s.decrypt_nonce + 127 < 2 ^ 128
    → nonce_0 < 256
    → arrival s nonce_0 ≡ accept nonce true lost
    → (nonce ≤ s.decrypt_nonce)
      × (s.decrypt_nonce < nonce + 30)
      × (get_or s.decrypt_history nonce_0 0 ≢ u8 (shr nonce 8))
unfolding arrival
arrival_behind s nonce_0 nonce lost low h hb e = (ground arith, ground arith, ground arith)

-- What a receiver has seen stays seen when it counts another packet.
forward-Seen :
    (s : CryptState) (n nonce_0 nonce lost : ℕ)
    → u8 nonce ≡ nonce_0
    → s.decrypt_nonce < nonce
    → Seen s n
    → Seen (count_packet s nonce_0 nonce false lost) n
forward-Seen s n nonce_0 nonce lost last ahead seen = record {
  behind = let before = seen.behind in omega (arith, before, ahead);
  held = λ near.
      get_or-set_other s.decrypt_history nonce_0 (u8 n) (u8 (shr nonce 8)) 0
        (λ same. let before = seen.behind in omega (arith, last, same, before, ahead, near))
      ∙ seen.held (omega arith);
}

behind-Seen :
    (s : CryptState) (n nonce_0 nonce lost : ℕ)
    → u8 nonce ≡ nonce_0
    → nonce ≤ s.decrypt_nonce
    → s.decrypt_nonce < nonce + 30
    → nonce ≢ n
    → Seen s n
    → Seen (count_packet s nonce_0 nonce true lost) n
behind-Seen s n nonce_0 nonce lost last before near new seen = record {
  behind = seen.behind;
  held = λ close.
      get_or-set_other s.decrypt_history nonce_0 (u8 n) (u8 (shr nonce 8)) 0
        (λ same. new (let old = seen.behind in omega (arith, last, same, before, near, old, close)))
      ∙ seen.held close;
}

-- The history and the nonce of a receiver that has accepted the nonces `ns`.
pub record Kept (s : CryptState) (ns : List ℕ) : Type 0 where
  pub history : length s.decrypt_history ≡ 256
  pub seen : All (Seen s) ns
  pub distinct : Distinct ns

All-map : (P Q : ℕ → Type 0) → ((n : ℕ) → P n → Q n) → (ns : List ℕ) → All P ns → All Q ns
All-map P Q f [] h = tt
All-map P Q f (n ∷ ns) h = (f n h.0, All-map P Q f ns h.1)

-- A nonce that the history does not hold is none of those that were seen.
behind-new :
    (s : CryptState) (n nonce_0 nonce : ℕ)
    → u8 nonce ≡ nonce_0
    → s.decrypt_nonce < nonce + 30
    → get_or s.decrypt_history nonce_0 0 ≢ u8 (shr nonce 8)
    → Seen s n
    → nonce ≢ n
behind-new s n nonce_0 nonce last near fresh seen same = fresh (
    ap (λ (b : ℕ). get_or s.decrypt_history b 0) (sym last ∙ ap u8 same)
    ∙ seen.held (omega arith)
    ∙ ap (λ (m : ℕ). u8 (shr m 8)) (sym same))

counted-held :
    (s : CryptState) (nonce_0 nonce : ℕ)
    → length s.decrypt_history ≡ 256
    → nonce_0 < 256
    → u8 nonce ≡ nonce_0
    → get_or (set s.decrypt_history nonce_0 (u8 (shr nonce 8))) (u8 nonce) 0 ≡ u8 (shr nonce 8)
counted-held s nonce_0 nonce hist h last =
    ap (λ (b : ℕ). get_or (set s.decrypt_history nonce_0 (u8 (shr nonce 8))) b 0) last
    ∙ get_or-set_self s.decrypt_history nonce_0 (u8 (shr nonce 8)) 0 (omega arith)

-- A nonce that is accepted without a wrap-around is a new one, and the window is kept.
pub count_packet-Kept :
    (s : CryptState) (ns : List ℕ) (nonce_0 nonce : ℕ) (is_late : Bool) (lost : ℕ)
    → 30 ≤ s.decrypt_nonce
    → s.decrypt_nonce + 127 < 2 ^ 128
    → nonce_0 < 256
    → arrival s nonce_0 ≡ accept nonce is_late lost
    → Kept s ns
    → Kept (count_packet s nonce_0 nonce is_late lost) (nonce ∷ ns)
count_packet-Kept s ns nonce_0 nonce false lost low high h e kept =
    let (ahead, _) = arrival_forward s nonce_0 nonce lost high h e in
    let (last, _) = arrival-accept s nonce_0 nonce false lost h e in
    record {
      history = length-set s.decrypt_history nonce_0 (u8 (shr nonce 8)) ∙ kept.history;
      seen = (
        record {
          behind = omega arith;
          held = λ _. counted-held s nonce_0 nonce kept.history h last;
        },
        All-map (Seen s) (Seen (count_packet s nonce_0 nonce false lost))
            (λ n. forward-Seen s n nonce_0 nonce lost last ahead) ns kept.seen,
      );
      distinct =
          another
            (All-map (Seen s) (λ (n : ℕ). nonce ≢ n)
              (λ n seen same. let old = seen.behind in omega (arith, old, same, ahead)) ns
              kept.seen)
            kept.distinct;
    }
count_packet-Kept s ns nonce_0 nonce true lost low high h e kept =
    let (before, near, fresh) = arrival_behind s nonce_0 nonce lost low high h e in
    let (last, _) = arrival-accept s nonce_0 nonce true lost h e in
    record {
      history = length-set s.decrypt_history nonce_0 (u8 (shr nonce 8)) ∙ kept.history;
      seen = (
        record { behind = before; held = λ _. counted-held s nonce_0 nonce kept.history h last },
        All-map (Seen s) (Seen (count_packet s nonce_0 nonce true lost))
            (λ n seen.
              behind-Seen s n nonce_0 nonce lost last before near
                (behind-new s n nonce_0 nonce last near fresh seen) seen)
            ns kept.seen,
      );
      distinct =
          another
            (All-map (Seen s) (λ (n : ℕ). nonce ≢ n)
              (λ n. behind-new s n nonce_0 nonce last near fresh) ns kept.seen)
            kept.distinct;
    }

-- The nonce grows by 127 at most.
pub count_packet-bound :
    (s : CryptState) (nonce_0 nonce : ℕ) (is_late : Bool) (lost : ℕ)
    → s.decrypt_nonce + 127 < 2 ^ 128
    → nonce_0 < 256
    → arrival s nonce_0 ≡ accept nonce is_late lost
    → (s.decrypt_nonce ≤ (count_packet s nonce_0 nonce is_late lost).decrypt_nonce)
      × ((count_packet s nonce_0 nonce is_late lost).decrypt_nonce ≤ s.decrypt_nonce + 127)
count_packet-bound s nonce_0 nonce false lost high h e =
    let (ahead, near) = arrival_forward s nonce_0 nonce lost high h e in (omega arith, near)
count_packet-bound s nonce_0 nonce true lost high h e = (omega arith, omega arith)
