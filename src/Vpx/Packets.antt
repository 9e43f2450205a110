-- ===== src/Vpx/Packets.antt =====
-- Sending a VP8 frame in packets, and receiving them (jni/baresip/modules/vpx/vpx.c, vpx_packetize
-- and dec). The sizes of the source (`sz`, `pmax - buf`) are the length of what is left of the
-- frame.
use Prim.Native.Nat.{min}
use bare_sip_android.Prelude.{
  ℕ, zero, suc, Bool, true, false, not, Option, none, some, List, [], ◌∷◌, Bytes, ltb, ◌==◌,
  if◌then◌else◌, length, take, drop, mbuf_write, enomem, ebadmsg,
}
use bare_sip_android.Vpx.Descriptor.{
  fi_none, fi_first, fi_middle, fi_last, Vp8Desc, vp8desc_enc, vp8desc_dec,
}

abbrev pub max_rtp_size : ℕ
max_rtp_size = 1024

pub record Packet : Type 0 where
  pub last : Bool
  pub payload : Bytes

-- What was handed to the send handler, whose result is not used, and the error code.
pub record Sent : Type 0 where
  pub packets : List Packet
  pub err : ℕ

abbrev pub fragment : Bool → Bool → Bool → ℕ
fragment true true last = fi_first
fragment true false true = fi_last
fragment true false false = fi_middle
fragment false begin last = fi_none

abbrev pub prepend : Packet → Option Sent → Option Sent
prepend p none = none
prepend p (some s) = some (record s { packets = p ∷ s.packets })

module _ (room : ℕ → Bool) (keyframe : Bool) (picid : ℕ) (fragmented : Bool) where
  -- what follows the descriptor in one round; `more` is the rest of the loop
  abbrev pub round : Bool → Bytes → Option (Bytes × ℕ) → Option Sent → Option Sent
  round last chunk none more = none
  round last chunk (some (mb, _)) more =
      let (mb', err) = mbuf_write room mb chunk in
      if err == 0
      then prepend (record { last = last; payload = mb' }) more
      else some (record { packets = []; err = err })

  -- The loop `while (buf < pmax)`; `err` is the error of the round before. `none` means that the
  -- fuel ran out or that the picture identifier did not fit its buffer.
  unfoldable pub vpx_loop : ℕ → Bool → Bytes → Option Sent
  vpx_loop zero begin buf = none
  vpx_loop (suc fuel) begin buf =
      let last = ltb (length buf) max_rtp_size in
      let chunk = take (min (length buf) max_rtp_size) buf in
      let desc =
        vp8desc_enc room [] true (not keyframe) (fragment fragmented begin last) begin picid in
      let more = vpx_loop fuel false (drop (min (length buf) max_rtp_size) buf) in
      let sent = round last chunk desc more in
      if length buf == 0 then some (record { packets = []; err = 0 }) else sent

-- `alloc` tells whether the packet buffer could be allocated
unfoldable pub vpx_packetize : (ℕ → Bool) → Bool → ℕ → Bytes → Bool → Option Sent
vpx_packetize room alloc picid buf keyframe =
    if alloc
    then vpx_loop room keyframe picid (ltb max_rtp_size (length buf)) (suc (length buf)) true buf
    else some (record { packets = []; err = enomem })

-- The receiver's state is its buffer; what one packet leads to: the buffer, the bytes handed to the
-- decoder of libvpx, and the error code. Whether libvpx takes them is the parameter `decode_ok`.
pub record Received : Type 0 where
  pub mb : Bytes
  pub frame : Option Bytes
  pub err : ℕ

module _ (room : ℕ → Bool) (decode_ok : Bytes → Bool) where
  abbrev pub assemble : Bytes → Bool → Option (Vp8Desc × Bytes) → Received
  assemble mb eof none = record { mb = mb; frame = none; err = ebadmsg }
  assemble mb eof (some (desc, rest)) =
      let (mb', err) = mbuf_write room mb rest in
      if not (err == 0)
      then record { mb = mb'; frame = none; err = err }
      else if not eof
      then record { mb = mb'; frame = none; err = 0 }
      else record { mb = []; frame = some mb'; err = if decode_ok mb' then 0 else ebadmsg }

  unfoldable pub dec : Bytes → Bool → Bytes → Received
  dec mb eof [] = record { mb = mb; frame = none; err = 0 }
  dec mb eof (b ∷ src) = assemble mb eof (vp8desc_dec 0 (b ∷ src))

  abbrev pub add_frame : Option Bytes → List Bytes → List Bytes
  add_frame none fs = fs
  add_frame (some f) fs = f ∷ fs

  -- the packets of a stream in order: the last buffer and all that the decoder was given
  unfoldable pub receive_all : Bytes → List Packet → Bytes × List Bytes
  receive_all mb [] = (mb, [])
  receive_all mb (p ∷ ps) =
      let r = dec mb p.last p.payload in
      let (mb', later) = receive_all r.mb ps in (mb', add_frame r.frame later)
