-- ===== src/H264/Bounds.antt =====
-- The number and size of the packets of a NAL unit (jni/baresip/modules/avcodec/h264.c).
use bare_sip_android.Prelude.{
  ℕ, zero, suc, ◌+◌, ◌-◌, ◌%◌, ◌≤◌, ◌<◌, bit_and, bit_or, ◌≡◌, subst, Bool, true, false, ◌&&◌,
  Option, some, List, [], ◌∷◌, ◌++◌, inl, inr, arith, ltb, Bytes, Bool-cases, length, take, drop,
  length-drop, length-take, mbuf_write_room, if◌then◌else◌, leb,
}
use bare_sip_android.H264.Send.{Packet, Sent, rtp_send_data, fu_send, h264_nal_send, size_mod}

-- The last packet has the marker flag `eof` and at most `maxsz + 1` bytes; each packet before it
-- has no marker flag and exactly `maxsz` bytes.
abbrev pub Framed : Bool → ℕ → List Packet → Type 0
Framed eof maxsz [] = ⊥
Framed eof maxsz (p ∷ []) = (p.eof ≡ eof) × (length p.payload ≤ maxsz + 1)
Framed eof maxsz (p ∷ q ∷ ps) =
    (p.eof ≡ false) × (length p.payload ≡ maxsz) × Framed eof maxsz (q ∷ ps)

abbrev pub SendsFramed : Bool → ℕ → Option Sent → Type 0
SendsFramed eof maxsz o = (s : Sent) × (o ≡ some s) × Framed eof maxsz s.packets

Framed-cons :
    (eof : Bool) (maxsz : ℕ) (p : Packet) (ps : List Packet)
    → p.eof ≡ false
    → length p.payload ≡ maxsz
    → Framed eof maxsz ps
    → Framed eof maxsz (p ∷ ps)
Framed-cons eof maxsz p [] e l f = elim f [ ]
Framed-cons eof maxsz p (q ∷ ps) e l f = (e, l, f)

module _ (room : ℕ → Bool) (sendh : Bool → Bytes → ℕ) (memory : (n : ℕ) → room n ≡ true) where
  rtp_send_data_packet :
      (hdr buf : Bytes) (eof : Bool)
      → (rtp_send_data room sendh hdr buf eof).0 ≡ record { eof = eof; payload = hdr ++ buf }
  unfolding rtp_send_data
  rtp_send_data_packet hdr buf eof =
      rw (mbuf_write_room room [] hdr memory) (rw (mbuf_write_room room hdr buf memory))

  fu_send-Framed :
      (fuel sz ind fh : ℕ) (buf : Bytes) (last marker : Bool) (err : ℕ)
      → length buf < fuel
      → 1 ≤ sz
      → SendsFramed
          (marker && last)
          (sz + 2)
          (fu_send room sendh fuel sz ind fh buf last marker err)
  unfolding fu_send
  fu_send-Framed zero sz ind fh buf last marker err lt pos = elim lt [ ]
  fu_send-Framed (suc fuel) sz ind fh buf last marker err lt pos =
      elim (Bool-cases (ltb sz (length buf))) [
        | inl more ↦
            let (p, e) = rtp_send_data room sendh (ind ∷ fh ∷ []) (take sz buf) false in
            let (s, sent, f) =
              fu_send-Framed fuel sz ind (bit_and fh 0x7f) (drop sz buf) last marker (bit_or err e)
                (ground (arith, length-drop sz buf)) pos in
            let q = rtp_send_data_packet (ind ∷ fh ∷ []) (take sz buf) false in
            (
              record s { packets = p ∷ s.packets },
              ground (arith, sent),
              Framed-cons _ _ p s.packets (ground (arith, q))
                  (ground (arith, q, length-take sz buf)) f,
            )
        | inr done ↦
            let fh' = if last then bit_or fh 64 else fh in
            let q = rtp_send_data_packet (ind ∷ fh' ∷ []) buf (marker && last) in
            let r = rtp_send_data room sendh (ind ∷ fh' ∷ []) buf (marker && last) in
            (
              record { packets = r.0 ∷ []; err = bit_or err r.1 },
              ground arith,
              (ground (arith, q), ground (arith, q)),
            )
      ]

-- With memory, and with room for three bytes in a packet, sending a NAL unit ends, whatever part of
-- a unit it is and whatever the send handler returns. Only the last packet can have the marker
-- flag, and has it if the unit's last part is sent with it; each packet before it has exactly
-- `maxsz` bytes, and the last one at most `maxsz + 1`.
pub h264_nal_send-Framed :
    (room : ℕ → Bool) (sendh : Bool → Bytes → ℕ) (first last marker : Bool) (ihdr : ℕ) (buf : Bytes)
    (maxsz : ℕ)
    → ((n : ℕ) → room n ≡ true)
    → 3 ≤ maxsz
    → maxsz < size_mod
    → SendsFramed (marker && last) maxsz (h264_nal_send room sendh first last marker ihdr buf maxsz)
unfolding h264_nal_send
h264_nal_send-Framed room sendh first last marker ihdr buf maxsz memory lo hi =
    elim (Bool-cases (first && last && leb (length buf) maxsz)) [
      | inl single ↦
          let q = rtp_send_data_packet room sendh memory (ihdr % 256 ∷ []) buf marker in
          let r = rtp_send_data room sendh (ihdr % 256 ∷ []) buf marker in
          (
            record { packets = r.0 ∷ []; err = r.1 },
            rw single,
            (ground (arith, q), ground (arith, q)),
          )
      | inr fragments ↦
          let hdr = ihdr % 256 in
          let type = bit_and hdr 0x1f in
          let sz = (maxsz + size_mod - 2) % size_mod in
          let e : sz + 2 ≡ maxsz = omega arith in
          let f =
            fu_send-Framed room sendh memory (suc (length buf)) sz (bit_or (bit_and hdr 0x60) 28)
              (if first then bit_or 128 type else type) buf last marker 0 (omega arith)
              (omega arith) in
          let sent =
            fu_send room sendh (suc (length buf)) sz (bit_or (bit_and hdr 0x60) 28)
              (if first then bit_or 128 type else type) buf last marker 0 in
          rw fragments (subst (λ n. SendsFramed (marker && last) n sent) e f)
    ]
