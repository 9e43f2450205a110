-- ===== src/Stream/Received.antt =====
-- What a stream without jitter buffer tells its handler of the packets that it receives
-- (jni/baresip/src/stream.c, rtp_recv).
use bare_sip_android.Prelude.{
  ℕ, zero, suc, ◌+◌, ◌-◌, ◌%◌, ◌^◌, ◌<◌, ◌≡◌, refl, ap, ap₂, ◌∙◌, Bool, false, ltb, if◌then◌else◌,
  none, some, List, [], ◌∷◌, ◌++◌, map, length, All, ◌==◌, bit_and, Bytes, arith,
}
use bare_sip_android.Stream.Lost.{lost, lostcalc}
use bare_sip_android.Stream.Tracker.{wire, track, Near, NearAll, lostcalc-track}
use bare_sip_android.Stream.State.{RtpHeader, JbufOps, Stream, sdp_recvonly, add_word}
use bare_sip_android.Stream.Receive.{
  Handled, notice, handle_frame, through_jbuf, rtp_recv, rtp_recvs,
}

-- a packet that its sender gave a number
abbrev pub Numbered : Type 0
Numbered = ℕ × (RtpHeader × Bytes)

abbrev pub header_of : Numbered → RtpHeader
header_of (n, (hdr, mb)) = record hdr { seq = wire n }

abbrev pub on_wire : Numbered → RtpHeader × Bytes
on_wire p = (header_of p, p.1.1)

-- Packets before it are missing where it does not come next behind the newest, but later.
abbrev pub is_behind_gap : ℕ → ℕ → Bool
is_behind_gap newest n = ltb (newest + 1) n

-- each packet once, after a notice if packets before it are missing
unfoldable pub told : ℕ → List Numbered → List Handled
told newest [] = []
told newest (p ∷ ps) =
    ((if is_behind_gap newest p.0 then (header_of p, none) ∷ [] else [])
      ++ (header_of p, some p.1.1) ∷ [])
    ++ told (if ltb newest p.0 then p.0 else newest) ps

notice-lost :
    (hdr : RtpHeader) (k : ℕ) → notice hdr (lost k) ≡ (if k == 0 then [] else (hdr, none) ∷ [])
notice-lost hdr zero = refl
notice-lost hdr (suc k) = ground arith

-- what the tracker finds is a gap
notice-track :
    (hdr : RtpHeader) (newest n : ℕ)
    → notice hdr (track newest n).0 ≡ (if is_behind_gap newest n then (hdr, none) ∷ [] else [])
unfolding track
notice-track hdr newest n = ground (arith, notice-lost hdr (n - newest - 1))

track-newest : (newest n : ℕ) → (track newest n).1 ≡ (if ltb newest n then n else newest)
unfolding track
track-newest newest n = ground arith

abbrev pub numbers : List Numbered → List ℕ
numbers [] = []
numbers (p ∷ ps) = p.0 ∷ numbers ps

-- no jitter buffer, and packets wanted
pub record Plain {J : Type 0} (newest : ℕ) (s : Stream J) : Type 0 where
  pub no_jbuf : s.jbuf ≡ none
  pub receives : (bit_and s.ldir sdp_recvonly == 0) ≡ false
  pub at_newest : s.pseq ≡ wire newest
  pub word : s.stats.n_rx < 2 ^ 32

module _ {J : Type 0} (ops : JbufOps J) where
  one_packet :
      (newest : ℕ) (p : Numbered) (s : Stream J)
      → Plain newest s
      → Near newest p.0
      → 0 < length p.1.1
      → ((rtp_recv ops (header_of p) p.1.1 s).0
          ≡ notice (header_of p) (track newest p.0).0 ++ (header_of p, some p.1.1) ∷ [])
        × Plain (track newest p.0).1 (rtp_recv ops (header_of p) p.1.1 s).1
  unfolding rtp_recv through_jbuf handle_frame
  one_packet newest p s v near h =
      let calc : lostcalc s.pseq (wire p.0) ≡ ((track newest p.0).0, wire (track newest p.0).1) =
        rw v.at_newest (lostcalc-track newest p.0 near) in
      let some_bytes : (length p.1.1 == 0) ≡ false = ground (arith, h) in
      rw (some_bytes, v.receives, v.no_jbuf, calc)
        (
          refl,
          record { no_jbuf = refl; receives = v.receives; at_newest = refl; word = omega arith },
        )

  -- the number of packets received, as a 32-bit number
  one_counted :
      (hdr : RtpHeader) (mb : Bytes) (s : Stream J)
      → (bit_and s.ldir sdp_recvonly == 0) ≡ false
      → 0 < length mb
      → (rtp_recv ops hdr mb s).1.stats.n_rx ≡ add_word s.stats.n_rx 1
  unfolding rtp_recv through_jbuf handle_frame
  one_counted hdr mb s r h = ground (arith, r, h)

  -- For packets that the sender numbered, each near enough to the newest before it and none empty,
  -- in a stream that has no jitter buffer and wants packets: its handler gets each of them once and
  -- in order, directly before it a notice if and only if the sender's numbers tell that packets
  -- before it are missing; and the stream counts them.
  pub rtp_recvs-told :
      (newest : ℕ) (ps : List Numbered) (s : Stream J)
      → Plain newest s
      → NearAll newest (numbers ps)
      → All (λ p. 0 < length p.1.1) ps
      → ((rtp_recvs ops (map on_wire ps) s).0 ≡ told newest ps)
        × ((rtp_recvs ops (map on_wire ps) s).1.stats.n_rx ≡ (s.stats.n_rx + length ps) % 2 ^ 32)
  unfolding rtp_recvs told NearAll
  rtp_recvs-told newest [] s v near h = (refl, omega (arith, v.word))
  rtp_recvs-told newest (p ∷ ps) s v (n, near) (b, h) =
      let (first, v') = one_packet newest p s v n b in
      let s' = (rtp_recv ops (header_of p) p.1.1 s).1 in
      let (rest, count) = rtp_recvs-told (track newest p.0).1 ps s' v' near h in
      let counted = one_counted (header_of p) p.1.1 s v.receives b in
      let told_first =
        first
        ∙ ap (λ l. l ++ (header_of p, some p.1.1) ∷ []) (notice-track (header_of p) newest p.0) in
      let told_rest = rest ∙ ap (λ n. told n ps) (track-newest newest p.0) in
      (ap₂ (λ a c. a ++ c) told_first told_rest, omega (arith, count, counted))
