-- ===== src/General/Packets.antt =====
-- Cutting a frame into packets (jni/baresip/modules/avcodec/avcodec.c, general_packetize). The
-- frame is what is left to be read of the buffer; the send handler's error ends the loop.
use bare_sip_android.Prelude.{
  ℕ, zero, suc, Bool, not, Option, none, some, List, [], ◌∷◌, ltb, ◌==◌, if◌then◌else◌, Bytes,
  length, take, drop, mbuf_write,
}

abbrev pub max_rtp_size : ℕ
max_rtp_size = 1024

pub record Packet : Type 0 where
  pub last : Bool
  pub payload : Bytes

pub record Sent : Type 0 where
  pub packets : List Packet
  pub err : ℕ

abbrev pub prepend : Packet → Option Sent → Option Sent
prepend p none = none
prepend p (some s) = some (record s { packets = p ∷ s.packets })

module _ (room : ℕ → Bool) (sendh : Bool → Bytes → ℕ) where
  -- `while (!err)`; `none` means that the fuel ran out
  unfoldable pub packetize_loop : ℕ → Bytes → Option Sent
  packetize_loop zero mb = none
  packetize_loop (suc fuel) mb =
      let last = ltb (length mb) max_rtp_size in
      let sz = if last then length mb else max_rtp_size in
      let (frag, err) = mbuf_write room [] (take sz mb) in
      let err' = sendh last frag in
      let p : Packet = record { last = last; payload = frag } in
      let rest = packetize_loop fuel (drop sz mb) in
      let more = if err' == 0 then rest else some (record { packets = []; err = err' }) in
      if length mb == 0
      then some (record { packets = []; err = 0 })
      else if not (err == 0)
      then some (record { packets = []; err = err })
      else prepend p more

  unfoldable pub general_packetize : Bytes → Option Sent
  general_packetize mb = packetize_loop (suc (length mb)) mb
