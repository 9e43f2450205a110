-- ===== src/Stream/Receive.antt =====
-- How a stream receives RTP (jni/baresip/src/stream.c, rtp_recv, tmr_stats_handler).
use bare_sip_android.Prelude.{
  ℕ, zero, suc, ◌*◌, ◌-◌, ◌/◌, ◌%◌, ◌^◌, Bool, not, ◌&&◌, Option, none, some, List, [], ◌∷◌, ◌++◌,
  length, leb, ◌==◌, if◌then◌else◌, bit_and, Bytes,
}
use bare_sip_android.Stream.Lost.{Lostc, lost, duplicate, late, lostcalc}
use bare_sip_android.Stream.State.{RtpHeader, JbufOps, Stats, Stream, sdp_recvonly, add_word}

-- A call of the stream's handler, `s->rtph(hdr, mb, s->arg)`; without a buffer, packets were lost.
abbrev pub Handled : Type 0
Handled = RtpHeader × Option Bytes

abbrev pub notice : RtpHeader → Lostc → List Handled
notice hdr (lost zero) = []
notice hdr (lost (suc k)) = (hdr, none) ∷ []
notice hdr duplicate = []
notice hdr late = []

-- `hdr2` and `mb2` are what the handler gets.
unfoldable pub handle_frame :
    {J : Type 0} → RtpHeader → RtpHeader → Option Bytes → Stream J → List Handled × Stream J
unfolding lostcalc
handle_frame hdr hdr2 mb2 s =
    let (l, pseq) = lostcalc s.pseq hdr2.seq in
    (notice hdr l ++ (hdr2, mb2) ∷ [], record s { pseq = pseq })

-- memset(&hdr2, 0, sizeof(hdr2))
abbrev pub zero_header : RtpHeader
zero_header = record { seq = 0; ts = 0; ssrc = 0 }

abbrev pub count_rx : ℕ → Stats → Stats
count_rx n st = record st { n_rx = add_word st.n_rx 1; b_rx = add_word st.b_rx n }

abbrev pub other_source : {J : Type 0} → RtpHeader → Stream J → Bool
other_source hdr s = not (hdr.ssrc == s.ssrc_rx) && not (s.ssrc_rx == 0)

abbrev pub frame_of :
    {J : Type 0} → RtpHeader → Option (RtpHeader × Bytes) → Stream J → List Handled × Stream J
frame_of hdr none s = handle_frame hdr zero_header none s
frame_of hdr (some (hdr2, mb2)) s = handle_frame hdr hdr2 (some mb2) s

module _ {J : Type 0} (ops : JbufOps J) where
  unfoldable pub through_jbuf :
      RtpHeader → Bytes → Bool → Option J → Stream J → List Handled × Stream J
  unfolding handle_frame
  through_jbuf hdr mb flush none s = handle_frame hdr hdr (some mb) s
  through_jbuf hdr mb flush (some j) s =
      let (err, put) = ops.put hdr mb (if flush then ops.flush j else j) in
      let (got, left) = ops.take_frame put in frame_of hdr got (record s { jbuf = some left })

  -- The bytes left in the buffer are those of the packet.
  unfoldable pub rtp_recv : RtpHeader → Bytes → Stream J → List Handled × Stream J
  unfolding through_jbuf
  rtp_recv hdr mb s =
      if length mb == 0
      then ([], s)
      else if bit_and s.ldir sdp_recvonly == 0
      then ([], s)
      else through_jbuf hdr mb (other_source hdr s) s.jbuf
          (record s { stats = count_rx (length mb) s.stats; ssrc_rx = hdr.ssrc })

  -- packets one after the other
  unfoldable pub rtp_recvs : List (RtpHeader × Bytes) → Stream J → List Handled × Stream J
  unfolding rtp_recv
  rtp_recvs [] s = ([], s)
  rtp_recvs ((hdr, mb) ∷ ps) s =
      let (now, s') = rtp_recv hdr mb s in let (then_, end) = rtp_recvs ps s' in (now ++ then_, end)

abbrev pub tmr_interval : ℕ
tmr_interval = 3

-- `1000 * 8 * bytes / diff`, with the product of 32 bits
abbrev pub bitrate : ℕ → ℕ → ℕ
bitrate bytes diff = (1000 * 8 * bytes) % 2 ^ 32 / diff

-- `none` is a division by zero, where the time since the last statistics is a multiple of 2 ^ 32.
unfoldable pub tmr_stats_handler : {J : Type 0} → ℕ → Stream J → Option (Stream J)
tmr_stats_handler now s =
    let started = record s { tmr_stats = tmr_interval * 1000 } in
    let st = s.stats in
    let diff = (now - st.ts) % 2 ^ 32 in
    let reset = record st { b_tx = 0; b_rx = 0; ts = now } in
    if leb now st.ts
    then some started
    else if st.ts == 0
    then some (record started { stats = reset })
    else if diff == 0
    then none
    else some (record started {
      stats = record reset { bitrate_tx = bitrate st.b_tx diff; bitrate_rx = bitrate st.b_rx diff };
    })
