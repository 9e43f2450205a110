-- ===== src/Tests/Videos.antt =====
-- Examples for video streams (jni/baresip/src/video.c).
use bare_sip_android.Prelude.{
  ℕ, ◌/◌, ◌-◌, ◌≡◌, ◌≤◌, refl, Bool, true, false, none, some, List, [], ◌∷◌, ◌++◌, map,
}
use bare_sip_android.Stream.State.{Stats}
use bare_sip_android.Stream.Send.{SendEnv, rtp_send, rtpkeep_refresh, stream_send}
use bare_sip_android.Registry.Device.{Vidcodec}
use bare_sip_android.Video.State.{
  VidFrame, encoder, Vtx, Video, VidEffect, encode, encoded, sends, packet, ends, VideoEnv,
}
use bare_sip_android.Video.Encode.{
  run_filters, vidcodec_send_handler, run_encoder, video_encode_rtp_send, vidsrc_frame_handler,
  vidsrc_frames,
}
use bare_sip_android.Video.Decode.{rtcp_psfb, video_rtcp_handler}
use bare_sip_android.Video.Control.{
  VidEvent, source_frame, rtcp, Seen, asked, did, video_step, video_run,
}
use bare_sip_android.Video.Muted.{calls, vidsrc_frames-calls, vidsrc_frames-muted}
use bare_sip_android.Video.Due.{due_of, AllDue, dues_after}
use bare_sip_android.Video.Pictures.{video_run-AllDue}

abbrev net : SendEnv
net = record {
  raddr_set = true;
  dir = λ l. l;
  rformat = some 97;
  rport = 4000;
  rattr_mux = false;
  cfg_mux = false;
  menc_updateh = false;
  has_rtpkeep = false;
  keep_err = 0;
  send_err = 0;
}

-- an encoder that sends the pixels in one packet
abbrev env : VideoEnv ℕ
env = record {
  mem = true;
  ench = λ vc full f c. packet true (VidFrame.pixels f) (λ err. ends err c);
  dech = λ vc m mb c. ((0, none), c);
  alloch = λ vc fps fmtp. (0, some 0);
  casecmp = λ a b. 0;
  vidconv = λ f size. VidFrame.pixels f;
  net = net;
  lformat = λ pt. none;
  rattr_fps = some 30;
  rattr_nack = true;
  cfg_fps = 25;
  cfg_w = 2;
  cfg_h = 1;
  vidsrcl = [];
  vidispl = [];
  disph = λ f. 0;
  vidisp_updateh = none;
  vidsrc_updateh = false;
  vidframe_fill = λ size. 0xff ∷ [];
}

abbrev vp8 : Vidcodec
vp8 = record { addr = 0; pt = none; name = 86 ∷ []; fmtp = none }

abbrev white : VidFrame
white = record { yuv420p = true; w = 2; h = 1; pixels = 0xff ∷ [] }

abbrev image : ℕ → VidFrame
image n = record { yuv420p = true; w = 2; h = 1; pixels = n ∷ [] }

abbrev stats : ℕ → ℕ → Stats
stats n b = record {
  n_tx = n;
  n_rx = 0;
  b_tx = b;
  b_rx = 0;
  bitrate_tx = 0;
  bitrate_rx = 0;
  ts = 0;
}

abbrev vtx : Bool → ℕ → ℕ → Bool → ℕ → Vtx
vtx muted muted_frames ts_tx picup frames = record {
  fps = 30;
  orient = 0;
  src_w = 2;
  src_h = 1;
  vsrc = true;
  frame = none;
  mute_frame = some white;
  muted_frames = muted_frames;
  ts_tx = ts_tx;
  picup = picup;
  muted = muted;
  frames = frames;
  efps = 0;
}

abbrev video : ℕ → Vtx → Video Bool ℕ
video sent tx = record {
  strm = record {
    jbuf = none;
    ldir = 3;
    rtpkeep = false;
    ssrc_rx = 0;
    pseq = 65535;
    rtcp_mux = false;
    pt_enc = some 97;
    tmr_stats = 1;
    stats = stats sent sent;
  };
  codecs = encoder vp8 0;
  vtx = tx;
  vrx = record {
    vidisp = false;
    orient = 0;
    fullscreen = false;
    pt_rx = none;
    frames = 0;
    efps = 0;
  };
  filtl = [];
  tmr = none;
  max_rtp_size = 1024;
  peer = none;
  nack_pli = false;
}

abbrev muted : Video Bool ℕ
muted = video 0 (vtx true 2 160 true 0)

abbrev picture : Bool → ℕ → VidFrame → List VidEffect
picture full ts f =
    encode full f
    ∷ sends (rtp_send true 97 ts (VidFrame.pixels f))
    ∷ sends (rtpkeep_refresh ts)
    ∷ encoded 0
    ∷ []

abbrev muted_after : Video Bool ℕ
muted_after = video 1 (vtx true 3 3160 false 2)

two_frames :
    vidsrc_frames env (image 1 ∷ image 2 ∷ []) muted ≡ some (picture true 160 white, muted_after)
unfolding vidsrc_frames vidsrc_frame_handler video_encode_rtp_send run_filters run_encoder
    vidcodec_send_handler stream_send
two_frames = refl

vidsrc_frames-calls_example : calls (picture true 160 white) ≤ 3 - 2
vidsrc_frames-calls_example =
    vidsrc_frames-calls env (image 1 ∷ image 2 ∷ []) (picture true 160 white) muted muted_after refl
      two_frames

vidsrc_frames-muted_example :
    vidsrc_frames env (image 1 ∷ image 2 ∷ []) muted
    ≡ vidsrc_frames env (image 3 ∷ image 4 ∷ []) muted
vidsrc_frames-muted_example =
    vidsrc_frames-muted env (image 1 ∷ image 2 ∷ []) (image 3 ∷ image 4 ∷ []) muted refl refl

-- a frame, a request for a full picture, and two frames
abbrev requested : List VidEvent
requested =
    source_frame (image 1)
    ∷ rtcp (rtcp_psfb 1)
    ∷ source_frame (image 2)
    ∷ source_frame (image 3)
    ∷ []

abbrev told : List Seen
told =
    map did (picture false 160 (image 1))
    ++ (asked ∷ map did (picture true 3160 (image 2)) ++ map did (picture false 6160 (image 3)))

abbrev shown : Video Bool ℕ
shown = video 0 (vtx false 0 160 false 0)

abbrev shown_after : Video Bool ℕ
shown_after = video 3 (vtx false 3 9160 false 3)

request_run : video_run env requested shown ≡ some (told, shown_after)
unfolding video_run video_step video_rtcp_handler vidsrc_frame_handler video_encode_rtp_send
    run_filters run_encoder vidcodec_send_handler stream_send
request_run = refl

video_run-AllDue_example :
    AllDue (90000 / 30) (due_of shown) told
    × (dues_after (90000 / 30) (due_of shown) told ≡ due_of shown_after)
video_run-AllDue_example = video_run-AllDue env requested told shown shown_after request_run
