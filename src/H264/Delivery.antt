-- ===== src/H264/Delivery.antt =====
-- Sending a NAL unit and receiving its packets, for buffers that never lack memory and a send
-- handler that never fails (jni/baresip/modules/avcodec/h264.c).
use bare_sip_android.Prelude.{
  ℕ, zero, suc, ◌+◌, ◌-◌, ◌%◌, ◌≤◌, ◌<◌, bit_or, ◌≡◌, refl, ◌∙◌, Bool, true, false, [], ◌∷◌, ◌++◌,
  arith, ltb, dec_le, Bytes, length, take, drop, length-drop, mbuf_write_room, inl, inr, Bool-cases,
}
use bare_sip_android.H264.Send.{rtp_send_data, fu_send, h264_nal_send, size_mod}
use bare_sip_android.H264.Receive.{VidcodecSt, nal_seq}
use bare_sip_android.H264.Bits.{indicator, Bits, Bits_lem, FuBits, FuBits_lem}
use bare_sip_android.H264.Reassembly.{
  outcome, Delivers, outcome-start, outcome-join, receive_more, receive_last, h264_decode-continue,
  h264_decode-start, h264_decode-single,
}

module _ (room : ℕ → Bool) (decode_ok : Bytes → Bool) (memory : (n : ℕ) → room n ≡ true)
    (sendh : Bool → Bytes → ℕ) (quiet : (eof : Bool) (b : Bytes) → sendh eof b ≡ 0) where
  rtp_send_data_lem :
      (hdr buf : Bytes) (eof : Bool)
      → rtp_send_data room sendh hdr buf eof ≡ (record { eof = eof; payload = hdr ++ buf }, 0)
  unfolding rtp_send_data
  rtp_send_data_lem hdr buf eof =
      rw (mbuf_write_room room [] hdr memory)
        (rw (mbuf_write_room room hdr buf memory) (rw (quiet eof (hdr ++ buf))))

  fu_send-continue :
      (fuel sz hdr : ℕ) (buf : Bytes) (st : VidcodecSt) (marker : Bool)
      → length buf < fuel
      → 1 ≤ sz
      → Bits hdr
      → FuBits (hdr % 32)
      → st.got_keyframe ≡ true
      → Delivers room decode_ok
          (fu_send room sendh fuel sz (indicator hdr) (hdr % 32) buf true marker 0)
          st
          (outcome st marker buf)
  unfolding fu_send
  fu_send-continue zero sz hdr buf st marker lt pos b fb key = elim lt [ ]
  fu_send-continue (suc fuel) sz hdr buf st marker lt pos b fb key =
      elim (Bool-cases (ltb sz (length buf))) [
        | inl more ↦
            let chunk : Bytes = take sz buf in
            let later =
              fu_send-continue fuel sz hdr (drop sz buf) (record st { mb = st.mb ++ chunk }) marker
                (ground (arith, length-drop sz buf)) pos b fb key in
            (
              record later.0 {
                packets =
                    record { eof = false; payload = indicator hdr ∷ hdr % 32 ∷ chunk }
                    ∷ later.0.packets;
              },
              ground (
                arith,
                rtp_send_data_lem (indicator hdr ∷ hdr % 32 ∷ []) chunk false,
                fb.stay,
                later.1,
              ),
              later.2,
              receive_more room decode_ok memory st st _ chunk later.0.packets
                    (h264_decode-continue room decode_ok memory st hdr (hdr % 32) chunk b fb.mid.0)
                  ∙ later.3
                  ∙ outcome-join st marker sz buf,
            )
        | inr last ↦ (
          record {
            packets =
                record { eof = marker; payload = indicator hdr ∷ bit_or (hdr % 32) 64 ∷ buf } ∷ [];
            err = 0;
          },
          ground (arith, rtp_send_data_lem (indicator hdr ∷ bit_or (hdr % 32) 64 ∷ []) buf marker),
          refl,
          receive_last room decode_ok memory st st marker _ buf key
              (h264_decode-continue room decode_ok memory st hdr _ buf b fb.end.0),
        )
      ]

  fu_send-start :
      (fuel sz hdr : ℕ) (buf : Bytes) (st : VidcodecSt) (marker : Bool)
      → length buf ≤ fuel
      → 1 ≤ sz
      → sz < length buf
      → Bits hdr
      → FuBits (hdr % 32)
      → st.got_keyframe ≡ true
      → Delivers room decode_ok
          (fu_send room sendh
            (suc fuel)
            sz
            (indicator hdr)
            (bit_or 128 (hdr % 32))
            buf
            true
            marker
            0)
          st
          (outcome st marker (0 ∷ 0 ∷ 1 ∷ hdr ∷ buf))
  unfolding fu_send
  fu_send-start fuel sz hdr buf st marker le pos more b fb key =
      let chunk : Bytes = take sz buf in
      let fh : ℕ = bit_or 128 (hdr % 32) in
      let st' : VidcodecSt = record st { mb = (st.mb ++ nal_seq) ++ hdr ∷ [] } in
      let later =
        fu_send-continue fuel sz hdr (drop sz buf) (record st' { mb = st'.mb ++ chunk }) marker
          (omega (arith, length-drop sz buf)) pos b fb key in
      (
        record later.0 {
          packets = record { eof = false; payload = indicator hdr ∷ fh ∷ chunk } ∷ later.0.packets;
        },
        ground (arith, rtp_send_data_lem (indicator hdr ∷ fh ∷ []) chunk false, fb.clear, later.1),
        later.2,
        receive_more room decode_ok memory st st' _ chunk later.0.packets
              (h264_decode-start room decode_ok memory st hdr fh chunk b fb.start.0 fb.start.1)
            ∙ later.3
            ∙ outcome-join st' marker sz buf
            ∙ outcome-start st marker hdr buf,
      )

  nal_send_single :
      (marker : Bool) (hdr : ℕ) (buf : Bytes) (maxsz : ℕ) (st : VidcodecSt)
      → hdr < 128
      → 1 ≤ hdr % 32
      → hdr % 32 ≤ 23
      → length buf ≤ maxsz
      → st.got_keyframe ≡ true
      → Delivers room decode_ok
          (h264_nal_send room sendh true true marker hdr buf maxsz)
          st
          (outcome st marker (0 ∷ 0 ∷ 1 ∷ hdr ∷ buf))
  unfolding h264_nal_send
  nal_send_single marker hdr buf maxsz st lt lo hi fits key =
      let e : hdr % 256 ≡ hdr = omega arith in
      (
        record { packets = record { eof = marker; payload = hdr ∷ buf } ∷ []; err = 0 },
        rw e (ground (arith, rtp_send_data_lem (hdr ∷ []) buf marker)),
        refl,
        receive_last room decode_ok memory st _ marker (hdr ∷ buf) buf key
              (h264_decode-single room decode_ok memory st hdr buf (Bits_lem hdr lt) lo hi key)
            ∙ outcome-start st marker hdr buf,
      )

  nal_send_fragments :
      (marker : Bool) (hdr : ℕ) (buf : Bytes) (maxsz : ℕ) (st : VidcodecSt)
      → hdr < 128
      → 3 ≤ maxsz
      → maxsz < size_mod
      → maxsz < length buf
      → st.got_keyframe ≡ true
      → Delivers room decode_ok
          (h264_nal_send room sendh true true marker hdr buf maxsz)
          st
          (outcome st marker (0 ∷ 0 ∷ 1 ∷ hdr ∷ buf))
  unfolding h264_nal_send
  nal_send_fragments marker hdr buf maxsz st lt lo hi more key =
      let b = Bits_lem hdr lt in
      let sent =
        fu_send-start (length buf) (maxsz - 2) hdr buf st marker (omega arith) (omega arith)
          (omega arith) b (FuBits_lem (hdr % 32) (omega arith)) key in
      let e : hdr % 256 ≡ hdr = omega arith in
      let e' : (maxsz + size_mod - 2) % size_mod ≡ maxsz - 2 = omega arith in
      (sent.0, rw (e, e', b.low) (ground (arith, sent.1)), sent.2, sent.3)

-- A NAL unit that is sent whole, with a header whose forbidden bit is clear and whose type is one
-- of a single NAL unit, and with room for three bytes in a packet, reaches the video decoder of a
-- receiver that has seen a key frame as the start sequence, the header and the bytes of the unit,
-- in one packet or in fragments: behind what was buffered, and at once when the marker flag is set.
-- Neither side lacks memory, and the send handler reports no error.
pub h264_nal_send-receive :
    (room : ℕ → Bool) (decode_ok : Bytes → Bool) (sendh : Bool → Bytes → ℕ) (marker : Bool)
    (hdr : ℕ) (buf : Bytes) (maxsz : ℕ) (st : VidcodecSt)
    → ((n : ℕ) → room n ≡ true)
    → ((eof : Bool) (b : Bytes) → sendh eof b ≡ 0)
    → hdr < 128
    → 1 ≤ hdr % 32
    → hdr % 32 ≤ 23
    → 3 ≤ maxsz
    → maxsz < size_mod
    → st.got_keyframe ≡ true
    → Delivers room decode_ok
        (h264_nal_send room sendh true true marker hdr buf maxsz)
        st
        (outcome st marker (0 ∷ 0 ∷ 1 ∷ hdr ∷ buf))
h264_nal_send-receive room decode_ok sendh marker hdr buf maxsz st memory quiet lt lo hi three top
      key =
    elim (dec_le (length buf) maxsz) [
      | yes fits ↦
          nal_send_single room decode_ok memory sendh quiet marker hdr buf maxsz st lt lo hi fits
            key
      | no more ↦
          nal_send_fragments room decode_ok memory sendh quiet marker hdr buf maxsz st lt three top
            (omega arith) key
    ]
