-- ===== src/Video/Control.antt =====
-- How a video stream is controlled (jni/baresip/src/video.c), and its events one after the other. A
-- result of `none` is the use of a null pointer, or a division by zero.
use bare_sip_android.Prelude.{
  ℕ, Bool, true, ◌&&◌, Option, none, some, List, [], ◌∷◌, ◌++◌, map, ◌==◌, if◌then◌else◌, Bytes,
}
use bare_sip_android.Registry.Device.{Vidcodec}
use bare_sip_android.Video.State.{
  VidFrame, Video, VidEffect, vidsrc_updated, vidisp_updated, VideoEnv,
}
use bare_sip_android.Video.Encode.{and_then, vidsrc_frame_handler}
use bare_sip_android.Video.Decode.{
  VidHeader, RtcpMsg, rtcp_fir, rtcp_psfb, rtcp_other, rtcp_psfb_pli, video_encoder_set,
  video_decoder_set, video_recv_handler, video_update_picture, video_rtcp_handler,
}
use bare_sip_android.Video.Setup.{source_prm}

module _ {J C : Type 0} where
  unfoldable pub video_mute : Bool → Video J C → Video J C
  unfolding video_update_picture
  video_mute muted v =
      video_update_picture
        (record v { vtx = record v.vtx { muted = muted; muted_frames = 0; picup = true } })

module _ {J C : Type 0} (env : VideoEnv C) where
  -- `vd->updateh`, with no display that of a null pointer
  unfoldable pub vidisp_update : Video J C → Option (ℕ × List VidEffect)
  vidisp_update v =
      if v.vrx.vidisp
      then elim env.vidisp_updateh [
        | none ↦ some (0, [])
        | some err ↦ some (err, vidisp_updated v.vrx.fullscreen v.vrx.orient ∷ [])
      ]
      else none

  unfoldable pub video_set_fullscreen : Bool → Video J C → Option (ℕ × List VidEffect) × Video J C
  unfolding vidisp_update
  video_set_fullscreen fs v =
      let v' = record v { vrx = record v.vrx { fullscreen = fs } } in (vidisp_update v', v')

  unfoldable pub vidsrc_update : Option Bytes → Video J C → List VidEffect
  vidsrc_update dev v =
      if v.vtx.vsrc && env.vidsrc_updateh then vidsrc_updated (source_prm dev v.vtx) ∷ [] else []

  unfoldable pub video_set_orient : ℕ → Video J C → Option (ℕ × List VidEffect) × Video J C
  unfolding vidisp_update vidsrc_update
  video_set_orient orient v =
      let v' = record v {
        vtx = record v.vtx { orient = orient };
        vrx = record v.vrx { orient = orient };
      } in
      (
        elim (vidisp_update v') [
          | none ↦ none
          | some (err, es) ↦ some (err, vidsrc_update none v' ++ es)
        ],
        v',
      )

  unfoldable pub video_vidsrc_set_device : Option Bytes → Video J C → List VidEffect
  unfolding vidsrc_update
  video_vidsrc_set_device dev v = vidsrc_update dev v

  unfoldable pub video_sdp_attr_decode : Video J C → Video J C
  video_sdp_attr_decode v = record v { nack_pli = env.rattr_nack }

-- what can happen to a video that has been started
pub data VidEvent : Type 0 where
  source_frame : VidFrame → VidEvent
  rtcp : RtcpMsg → VidEvent
  received : VidHeader → Option Bytes → VidEvent
  mute : Bool → VidEvent
  set_enc set_dec : Vidcodec → ℕ → VidEvent

-- what is seen of it: a request for a full picture, and what the code does
pub data Seen : Type 0 where
  asked : Seen
  did : VidEffect → Seen

-- what the code did, as it is seen
abbrev pub seen :
    {J C : Type 0} → Option (List VidEffect × Video J C) → Option (List Seen × Video J C)
seen none = none
seen (some (es, v)) = some (map did es, v)

abbrev pub asks : RtcpMsg → List Seen
asks rtcp_fir = asked ∷ []
asks (rtcp_psfb count) = if count == rtcp_psfb_pli then asked ∷ [] else []
asks rtcp_other = []

module _ {J C : Type 0} (env : VideoEnv C) where
  unfoldable pub video_step : VidEvent → Video J C → Option (List Seen × Video J C)
  unfolding vidsrc_frame_handler video_rtcp_handler video_recv_handler video_mute video_encoder_set
      video_decoder_set
  video_step (source_frame f) v = seen (vidsrc_frame_handler env f v)
  video_step (rtcp msg) v = some (asks msg, video_rtcp_handler msg v)
  video_step (received hdr mb) v =
      let (es, v') = video_recv_handler env hdr mb v in some (map did es, v')
  video_step (mute muted) v = some (asked ∷ [], video_mute muted v)
  video_step (set_enc vc pt) v =
      let (err, v') = video_encoder_set env vc (some pt) none v in some ([], v')
  video_step (set_dec vc pt) v = let (err, v') = video_decoder_set env vc pt v in some ([], v')

  unfoldable pub video_run : List VidEvent → Video J C → Option (List Seen × Video J C)
  unfolding video_step
  video_run [] v = some ([], v)
  video_run (e ∷ es) v = and_then (video_step e v) (λ v'. video_run es v')
