-- ===== src/Video/Setup.antt =====
-- How a video stream is made and started (jni/baresip/src/video.c).
use bare_sip_android.Prelude.{
  ℕ, ◌/◌, ◌*◌, Bool, true, false, not, Option, none, some, List, [], ◌∷◌, ◌++◌, ◌==◌, bit_or,
  if◌then◌else◌, Bytes, einval, enomem, enoent,
}
use bare_sip_android.Stream.State.{Stream}
use bare_sip_android.Stream.Send.{stream_start}
use bare_sip_android.Registry.Driver.{Driver, vidsrc_find, vidisp_find}
use bare_sip_android.Registry.Device.{Vidcodec}
use bare_sip_android.Video.State.{
  VidFrame, VidFilt, VidsrcPrm, neither, Vtx, Vrx, Video, VideoEnv, tmr_interval, get_fps,
}

abbrev pub vidorient_portrait : ℕ
vidorient_portrait = 0

-- The errors of the calls, in their order: the stream's and its attributes', those of the locks and
-- that of each codec's format. Each filter comes with the error of its update handler.
pub record AllocEnv (J : Type 0) : Type 0 where
  pub mem : Bool
  pub stream : ℕ × Stream J
  pub framerate_err : ℕ
  pub rtcp_fb_err : ℕ
  pub content_err : Option ℕ
  pub lock_errs : ℕ × ℕ
  pub format_add : Vidcodec → ℕ
  pub vidfilts : List (ℕ × VidFilt)

unfoldable pub vtx_alloc : ℕ → Vtx → ℕ × Vtx
vtx_alloc err vtx = if err == 0 then (0, record vtx { ts_tx = 160 }) else (err, vtx)

unfoldable pub vrx_alloc : ℕ → Vrx → ℕ × Vrx
vrx_alloc err vrx =
    if err == 0 then (0, record vrx { pt_rx = none; orient = vidorient_portrait }) else (err, vrx)

-- mem_zalloc
abbrev zero_vtx : Vtx
zero_vtx = record {
  fps = 0;
  orient = 0;
  src_w = 0;
  src_h = 0;
  vsrc = false;
  frame = none;
  mute_frame = none;
  muted_frames = 0;
  ts_tx = 0;
  picup = false;
  muted = false;
  frames = 0;
  efps = 0;
}

abbrev zero_vrx : Vrx
zero_vrx = record {
  vidisp = false;
  orient = 0;
  fullscreen = false;
  pt_rx = some 0;
  frames = 0;
  efps = 0;
}

abbrev or_zero : Option ℕ → ℕ
or_zero none = 0
or_zero (some err) = err

-- `err |= sdp_format_add(...)` for each codec
unfoldable pub add_formats : (Vidcodec → ℕ) → List Vidcodec → ℕ → ℕ
add_formats format_add [] err = err
add_formats format_add (vc ∷ vcs) err = add_formats format_add vcs (bit_or err (format_add vc))

-- `err = vf->updh(&st, vf)` for each filter, up to the first error
unfoldable pub add_filters : List (ℕ × VidFilt) → ℕ → List VidFilt → ℕ × List VidFilt
add_filters [] err filtl = (err, filtl)
add_filters ((e, vf) ∷ vfs) err filtl =
    let rest = add_filters vfs 0 (filtl ++ vf ∷ []) in if e == 0 then rest else (e, filtl)

abbrev pub attrs_err : {J : Type 0} → AllocEnv J → ℕ
attrs_err env = bit_or (bit_or env.framerate_err env.rtcp_fb_err) (or_zero env.content_err)

abbrev filled : {J C : Type 0} → Stream J → Vtx → Vrx → List VidFilt → Video J C
filled strm vtx vrx filtl = record {
  strm = strm;
  codecs = neither;
  vtx = vtx;
  vrx = vrx;
  filtl = filtl;
  tmr = none;
  max_rtp_size = 1024;
  peer = none;
  nack_pli = false;
}

module _ {J C : Type 0} (env : AllocEnv J) where
  -- There is a place for the result; the video is freed where there is an error.
  unfoldable pub video_alloc : Bool → List Vidcodec → ℕ × Option (Video J C)
  unfolding vtx_alloc vrx_alloc add_formats add_filters
  video_alloc place vidcodecl =
      let (serr, strm) = env.stream in
      let (terr, vtx) = vtx_alloc env.lock_errs.0 zero_vtx in
      let (rerr, vrx) = vrx_alloc env.lock_errs.1 zero_vrx in
      let (err, filtl) = add_filters env.vidfilts (add_formats env.format_add vidcodecl 0) [] in
      if not place
      then (einval, none)
      else if not env.mem
      then (enomem, none)
      else if not (serr == 0)
      then (serr, none)
      else if not (attrs_err env == 0)
      then (attrs_err env, none)
      else if not (bit_or terr rerr == 0)
      then (bit_or terr rerr, none)
      else (err, if err == 0 then some (filled strm vtx vrx filtl) else none)

abbrev pub source_prm : Option Bytes → Vtx → VidsrcPrm
source_prm dev vtx = record {
  fps = vtx.fps;
  orient = vtx.orient;
  w = vtx.src_w;
  h = vtx.src_h;
  dev = dev;
}

abbrev white_frame : {C : Type 0} → VideoEnv C → ℕ → ℕ → VidFrame
white_frame env w h = record { yuv420p = true; w = w; h = h; pixels = env.vidframe_fill (w, h) }

module _ {J C : Type 0} (env : VideoEnv C) where
  abbrev alloc_vidisp : Option (Driver Unit) → Video J C → ℕ × Video J C
  alloc_vidisp none v = (enoent, v)
  alloc_vidisp (some vd) v =
      let err = vd.alloch tt in (err, record v { vrx = record v.vrx { vidisp = err == 0 } })

  unfoldable pub set_vidisp : Video J C → ℕ × Video J C
  unfolding vidisp_find
  set_vidisp v =
      alloc_vidisp (vidisp_find env.casecmp none env.vidispl)
        (record v { vrx = record v.vrx { vidisp = false } })

  -- `vs->alloch(&vtx->vsrc, ...)`, where the source before has been dropped
  abbrev alloc_source : Driver VidsrcPrm → Option Bytes → Video J C → ℕ × Video J C
  alloc_source vs dev v =
      let err = vs.alloch (source_prm dev v.vtx) in
      (err, record v { vtx = record v.vtx { vsrc = err == 0 } })

  abbrev alloc_mute_frame : ℕ → ℕ → Video J C → ℕ × Video J C
  alloc_mute_frame w h v =
      if env.mem
      then (0, record v { vtx = record v.vtx { mute_frame = some (white_frame env w h) } })
      else (enomem, record v { vtx = record v.vtx { mute_frame = none } })

  abbrev set_format : Option (Driver VidsrcPrm) → Option Bytes → ℕ → ℕ → Video J C → ℕ × Video J C
  set_format none dev w h v = (enoent, v)
  set_format (some vs) dev w h v =
      let (err, v') = alloc_source vs dev (record v {
        vtx = record v.vtx {
          src_w = w;
          src_h = h;
          fps = get_fps env;
          orient = vidorient_portrait;
          vsrc = false;
        };
      }) in
      if err == 0 then alloc_mute_frame w h v' else (err, v')

  unfoldable pub set_encoder_format :
      Option Bytes → Option Bytes → ℕ → ℕ → Video J C → ℕ × Video J C
  unfolding get_fps vidsrc_find
  set_encoder_format src dev w h v = set_format (vidsrc_find env.casecmp src env.vidsrcl) dev w h v

  -- `dup_err` is that of str_dup, which leaves the address of the freed peer where it fails.
  abbrev set_peer : Option Bytes → ℕ → Video J C → ℕ × Video J C
  set_peer none dup_err v = (0, v)
  set_peer (some peer) dup_err v =
      if dup_err == 0 then (0, record v { peer = some peer }) else (dup_err, v)

  unfoldable pub video_start :
      Option Bytes → Option Bytes → Option Bytes → ℕ → Video J C → ℕ × Video J C
  unfolding stream_start set_vidisp set_encoder_format
  video_start src dev peer dup_err v =
      let (err, v1) = set_peer peer dup_err v in
      let (derr, v2) = set_vidisp (record v1 { strm = stream_start v1.strm }) in
      let (serr, v3) = set_encoder_format src dev env.cfg_w env.cfg_h v2 in
      if err == 0 then (0, record v3 { tmr = some (tmr_interval * 1000) }) else (err, v1)

  unfoldable pub video_set_source : Option Bytes → Option Bytes → Video J C → ℕ × Video J C
  unfolding vidsrc_find
  video_set_source name dev v = elim (vidsrc_find env.casecmp name env.vidsrcl) [
    | none ↦ (enoent, v)
    | some vs ↦ alloc_source vs dev v
  ]

module _ {J C : Type 0} where
  unfoldable pub video_tmr_handler : Video J C → Video J C
  video_tmr_handler v = record v {
    tmr = some (tmr_interval * 1000);
    vtx = record v.vtx { efps = v.vtx.frames / tmr_interval; frames = 0 };
    vrx = record v.vrx { efps = v.vrx.frames / tmr_interval; frames = 0 };
  }

  unfoldable pub video_stop : Video J C → Video J C
  video_stop v = record v { vtx = record v.vtx { vsrc = false } }
