-- ===== src/Video/Decode.antt =====
-- How video is received (jni/baresip/src/video.c, stream_recv_handler and what it calls, and
-- rtcp_handler), and how its codecs are set.
use bare_sip_android.Prelude.{
  ℕ, ◌+◌, Bool, true, false, Option, none, some, List, [], ◌∷◌, ◌==◌, if◌then◌else◌, Bytes, einval,
  enoent,
}
use bare_sip_android.Stream.Send.{stream_update_encoder}
use bare_sip_android.Registry.Device.{Vidcodec, vidcodec_cmp}
use bare_sip_android.Video.State.{
  VidFrame, VidFilt, Codecs, neither, encoder, decoder, shared, separate, Video, VidEffect,
  send_fir, display, VideoEnv, get_fps, dec_of, put_dec, drop_enc, drop_dec,
}
use bare_sip_android.Video.Encode.{run_filters}

-- what the code reads of an RTP header, and of an RTCP message
pub record VidHeader : Type 0 where
  pub pt : ℕ
  pub m : Bool

pub data RtcpMsg : Type 0 where
  rtcp_fir rtcp_other : RtcpMsg
  rtcp_psfb : ℕ → RtcpMsg

abbrev pub rtcp_psfb_pli : ℕ
rtcp_psfb_pli = 1

abbrev pub same_pt : ℕ → Option ℕ → Bool
same_pt pt none = false
same_pt pt (some pt_rx) = pt == pt_rx

module _ {C : Type 0} where
  -- a new codec, or its failure, where there is none; a second reference to one that is there
  abbrev pub new_enc : Vidcodec → Option C → Codecs C → Codecs C
  new_enc vc none cs = cs
  new_enc vc (some c) neither = encoder vc c
  new_enc vc (some c) (encoder wc d) = encoder vc c
  new_enc vc (some c) (decoder wc d) = separate vc c wc d
  new_enc vc (some c) (shared wc d) = separate vc c wc d
  new_enc vc (some c) (separate wc d xc e) = separate vc c xc e

  abbrev pub new_dec : Vidcodec → Option C → Codecs C → Codecs C
  new_dec vc none cs = cs
  new_dec vc (some c) neither = decoder vc c
  new_dec vc (some c) (encoder wc d) = separate wc d vc c
  new_dec vc (some c) (decoder wc d) = decoder vc c
  new_dec vc (some c) (shared wc d) = separate wc d vc c
  new_dec vc (some c) (separate wc d xc e) = separate wc d vc c

module _ {C : Type 0} (env : VideoEnv C) where
  unfoldable pub vc_alloc : Vidcodec → Option Bytes → ℕ × Option C
  unfolding get_fps
  vc_alloc vc fmtp = env.alloch vc (get_fps env) fmtp

  -- the first of the two has been dropped
  abbrev pub set_enc : Vidcodec → Option Bytes → Codecs C → ℕ × Codecs C
  set_enc vc params (decoder wc d) =
      if vidcodec_cmp env.casecmp (some vc) (some wc)
      then (0, shared wc d)
      else let (err, c) = vc_alloc vc params in (err, new_enc vc c (decoder wc d))
  set_enc vc params cs = let (err, c) = vc_alloc vc params in (err, new_enc vc c cs)

  abbrev pub set_dec : Vidcodec → Codecs C → ℕ × Codecs C
  set_dec vc (encoder wc d) =
      if vidcodec_cmp env.casecmp (some vc) (some wc)
      then (0, shared wc d)
      else let (err, c) = vc_alloc vc none in (err, new_dec vc c (encoder wc d))
  set_dec vc cs = let (err, c) = vc_alloc vc none in (err, new_dec vc c cs)

  unfoldable pub vidisp_display : Bool → Option Bytes → VidFrame → ℕ × List VidEffect
  vidisp_display vidisp title f =
      if vidisp then (env.disph f, display title f ∷ []) else (einval, [])

module _ {J C : Type 0} (env : VideoEnv C) where
  unfoldable pub video_encoder_set : Vidcodec → Option ℕ → Option Bytes → Video J C → ℕ × Video J C
  unfolding vc_alloc vidcodec_cmp stream_update_encoder
  video_encoder_set vc pt_tx params v =
      let (err, cs) = set_enc env vc params (drop_enc v.codecs) in
      (err, record v { codecs = cs; strm = stream_update_encoder pt_tx v.strm })

  unfoldable pub video_decoder_set : Vidcodec → ℕ → Video J C → ℕ × Video J C
  unfolding vc_alloc vidcodec_cmp
  video_decoder_set vc pt_rx v =
      let (err, cs) = set_dec env vc (drop_dec v.codecs) in
      (err, record v { codecs = cs; vrx = record v.vrx { pt_rx = some pt_rx } })

  abbrev pub show : VidFrame → Video J C → (ℕ × List VidEffect) × Video J C
  show f v = (
    vidisp_display env v.vrx.vidisp v.peer f,
    record v { vrx = record v.vrx { frames = v.vrx.frames + 1 } },
  )

  abbrev pub decoded_frame : Option VidFrame → Video J C → (ℕ × List VidEffect) × Video J C
  decoded_frame none v = ((0, []), v)
  decoded_frame (some f) v = show (run_filters VidFilt.dech v.filtl 0 f).1 v

  abbrev pub decode_with :
      Vidcodec → C → Bool → Option Bytes → Video J C → (ℕ × List VidEffect) × Video J C
  decode_with vc c m mb v =
      let ((err, frame), c') = env.dech vc m mb c in
      let v' = record v { codecs = put_dec c' v.codecs } in
      if err == 0 then decoded_frame frame v' else ((err, send_fir v.nack_pli ∷ []), v')

  abbrev pub decode_at :
      Option (Vidcodec × C) → Bool → Option Bytes → Video J C → (ℕ × List VidEffect) × Video J C
  decode_at none m mb v = ((0, []), v)
  decode_at (some (vc, c)) m mb v = decode_with vc c m mb v

  unfoldable pub video_stream_decode :
      VidHeader → Option Bytes → Video J C → (ℕ × List VidEffect) × Video J C
  unfolding run_filters vidisp_display
  video_stream_decode hdr mb v = decode_at (dec_of v.codecs) hdr.m mb v

  abbrev pub change_decoder : Option (Vidcodec × ℕ) → Video J C → ℕ × Video J C
  change_decoder none v = (enoent, v)
  change_decoder (some (vc, pt)) v = video_decoder_set vc pt v

  unfoldable pub video_pt_handler : ℕ → Video J C → ℕ × Video J C
  unfolding video_decoder_set
  video_pt_handler pt_new v = change_decoder (env.lformat pt_new) v

  -- a frame that a packet carries, or none
  unfoldable pub video_recv_handler :
      VidHeader → Option Bytes → Video J C → List VidEffect × Video J C
  unfolding video_stream_decode video_pt_handler
  video_recv_handler hdr none v = let ((err, es), v') = video_stream_decode hdr none v in (es, v')
  video_recv_handler hdr (some mb) v =
      let ((err, es), same) = video_stream_decode hdr (some mb) v in
      let (perr, v') = video_pt_handler hdr.pt v in
      let ((cerr, ces), changed) = video_stream_decode hdr (some mb) v' in
      if same_pt hdr.pt v.vrx.pt_rx
      then (es, same)
      else if perr == 0
      then (ces, changed)
      else ([], v')

module _ {J C : Type 0} where
  unfoldable pub video_update_picture : Video J C → Video J C
  video_update_picture v = record v { vtx = record v.vtx { picup = true } }

  unfoldable pub video_rtcp_handler : RtcpMsg → Video J C → Video J C
  video_rtcp_handler rtcp_fir v = record v { vtx = record v.vtx { picup = true } }
  video_rtcp_handler (rtcp_psfb count) v = record v {
    vtx = record v.vtx { picup = if count == rtcp_psfb_pli then true else v.vtx.picup };
  }
  video_rtcp_handler rtcp_other v = v
