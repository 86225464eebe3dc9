-- ===== src/Crypt/Session/Arrivals.antt =====
-- mumble-protocol/src/crypt.rs: the nonce that `decrypt` works out from a packet's first byte.
use atof.Prelude.{
  ℕ, ◌+◌, ◌-◌, ◌^◌, ◌≤◌, ◌<◌, ◌≡◌, refl, subst, ap, ◌∙◌, Bool, true, false, arith, length, get_or,
  get_or-set_self,
}
use atof.Prelude.Words.{u8, shr, IsU128}
use atof.Crypt.State.{
  CryptState, accept, repeat, too_late, wrapping_add, diff_of, arrival, count_packet,
}

-- A sender that is `k` packets ahead, of at most 126, is followed, and `k` packets count as lost.
pub arrival-ahead :
    (s : CryptState) (k : ℕ)
    → IsU128 s.decrypt_nonce
    → k < 127
    → arrival s (u8 (wrapping_add s.decrypt_nonce (k + 1)))
      ≡ accept (wrapping_add s.decrypt_nonce (k + 1)) false k
unfolding arrival
arrival-ahead s k h hk = ground arith

-- An accepted nonce ends in the byte that was received.
pub arrival-accept :
    (s : CryptState) (nonce_0 nonce : ℕ) (is_late : Bool) (lost : ℕ)
    → nonce_0 < 256
    → arrival s nonce_0 ≡ accept nonce is_late lost
    → (u8 nonce ≡ nonce_0) × IsU128 nonce
unfolding arrival
arrival-accept s nonce_0 nonce is_late lost h e = ground arith

-- The byte of the last nonce is a repetition if the history holds the nonce.
arrival_current :
    (s : CryptState)
    → IsU128 s.decrypt_nonce
    → get_or s.decrypt_history (u8 s.decrypt_nonce) 0 ≡ u8 (shr s.decrypt_nonce 8)
    → arrival s (u8 s.decrypt_nonce) ≡ repeat
unfolding arrival
arrival_current s h seen = ground arith

-- So is the byte of a late packet, once the history holds its nonce.
arrival_late :
    (s t : CryptState) (nonce_0 nonce lost : ℕ)
    → t.decrypt_nonce ≡ s.decrypt_nonce
    → get_or t.decrypt_history nonce_0 0 ≡ u8 (shr nonce 8)
    → arrival s nonce_0 ≡ accept nonce true lost
    → arrival t nonce_0 ≡ repeat
unfolding arrival
arrival_late s t nonce_0 nonce lost same seen e = ground arith

-- The byte of a packet that was counted is a repetition from then on.
pub arrival_again :
    (s : CryptState) (nonce_0 nonce : ℕ) (is_late : Bool) (lost : ℕ)
    → nonce_0 < 256
    → length s.decrypt_history ≡ 256
    → arrival s nonce_0 ≡ accept nonce is_late lost
    → arrival (count_packet s nonce_0 nonce is_late lost) nonce_0 ≡ repeat
arrival_again s nonce_0 nonce true lost h hist e =
    arrival_late s (count_packet s nonce_0 nonce true lost) nonce_0 nonce lost refl
      (get_or-set_self s.decrypt_history nonce_0 (u8 (shr nonce 8)) 0 (omega arith)) e
arrival_again s nonce_0 nonce false lost h hist e =
    let (last, fits) = arrival-accept s nonce_0 nonce false lost h e in
    let t = count_packet s nonce_0 nonce false lost in
    subst (λ (b : ℕ). arrival t b ≡ repeat) last
      (arrival_current t fits (
        ap (λ (b : ℕ). get_or t.decrypt_history b 0) last
        ∙ get_or-set_self s.decrypt_history nonce_0 (u8 (shr nonce 8)) 0 (omega arith)))

-- A packet that is refused as too late would move the nonce back by 30 to 128.
pub arrival_too_late :
    (s : CryptState) (nonce_0 nonce : ℕ)
    → nonce_0 < 256
    → arrival s nonce_0 ≡ too_late nonce
    → (back : ℕ) × (30 ≤ back)
      × (back ≤ 128)
      × (nonce ≡ wrapping_add s.decrypt_nonce (2 ^ 128 - back))
unfolding arrival
arrival_too_late s nonce_0 nonce h e =
    (256 - diff_of s.decrypt_nonce nonce_0, ground arith, ground arith, ground arith)
