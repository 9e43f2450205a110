-- ===== src/H264/Send.antt =====
-- Sending one NAL unit in RTP packets (jni/baresip/modules/avcodec/h264.c, h264_nal_send).
-- `room` is the memory of the fragment buffer, `sendh` the send handler with the error that it
-- returns; a packet is what the handler is given, the marker flag and the payload.
use bare_sip_android.Prelude.{
  ℕ, zero, suc, ◌+◌, ◌-◌, ◌%◌, ◌^◌, bit_and, bit_or, Bool, false, ◌&&◌, Option, none, some, List,
  [], ◌∷◌, Bytes, ltb, leb, if◌then◌else◌, length, take, drop, mbuf_write,
}

pub record Packet : Type 0 where
  pub eof : Bool
  pub payload : Bytes

pub record Sent : Type 0 where
  pub packets : List Packet
  pub err : ℕ

-- `size_t` is 32 bits wide on the target, so that `maxsz - 2` wraps below two
abbrev pub size_mod : ℕ
size_mod = 2 ^ 32

abbrev pub h264_nal_fu_a : ℕ
h264_nal_fu_a = 28

module _ (room : ℕ → Bool) (sendh : Bool → Bytes → ℕ) where
  -- what the handler gets, and the error
  unfoldable pub rtp_send_data : Bytes → Bytes → Bool → Packet × ℕ
  unfolding mbuf_write
  rtp_send_data hdr buf eof =
      let (frag, e1) = mbuf_write room [] hdr in
      let (frag', e2) = mbuf_write room frag buf in
      (record { eof = eof; payload = frag' }, bit_or (bit_or e1 e2) (sendh eof frag'))

  -- the packet in front of what is sent later
  abbrev pub prepend : Packet → Option Sent → Option Sent
  prepend p none = none
  prepend p (some s) = some (record s { packets = p ∷ s.packets })

  -- `while (size > sz)` and the packet behind it; `err` holds the errors so far, and `none` means
  -- that the fuel ran out
  unfoldable pub fu_send : ℕ → ℕ → ℕ → ℕ → Bytes → Bool → Bool → ℕ → Option Sent
  fu_send zero sz ind fh buf last marker err = none
  fu_send (suc fuel) sz ind fh buf last marker err =
      let (p, e) = rtp_send_data (ind ∷ fh ∷ []) (take sz buf) false in
      let more =
        prepend p
          (fu_send fuel sz ind (bit_and fh 0x7f) (drop sz buf) last marker (bit_or err e)) in
      let fh' = if last then bit_or fh 64 else fh in
      let (q, e') = rtp_send_data (ind ∷ fh' ∷ []) buf (marker && last) in
      if ltb sz (length buf) then more else some (record { packets = q ∷ []; err = bit_or err e' })

  -- `ihdr` is cut to a byte by the caller's type conversion
  unfoldable pub h264_nal_send : Bool → Bool → Bool → ℕ → Bytes → ℕ → Option Sent
  h264_nal_send first last marker ihdr buf maxsz =
      let hdr = ihdr % 256 in
      let type = bit_and hdr 0x1f in
      let ind = bit_or (bit_and hdr 0x60) h264_nal_fu_a in
      let fh = if first then bit_or 128 type else type in
      let sz = (maxsz + size_mod - 2) % size_mod in
      let (p, e) = rtp_send_data (hdr ∷ []) buf marker in
      if first && last && leb (length buf) maxsz
      then some (record { packets = p ∷ []; err = e })
      else fu_send (suc (length buf)) sz ind fh buf last marker 0
