-- ===== src/Video/Encode.antt =====
-- How video is sent (jni/baresip/src/video.c, vidsrc_frame_handler and what it calls). A result of
-- `none` is a division by zero, or the use of a frame at a null pointer.
use bare_sip_android.Prelude.{
  ℕ, ◌+◌, ◌/◌, Bool, true, false, ◌&&◌, ◌||◌, Option, none, some, List, [], ◌∷◌, ◌++◌, map, ◌==◌,
  leb, bit_or, if◌then◌else◌, Bytes,
}
use bare_sip_android.Stream.State.{Stream, add_word}
use bare_sip_android.Stream.Send.{SendEffect, SendEnv, stream_send}
use bare_sip_android.Registry.Device.{Vidcodec}
use bare_sip_android.Video.State.{
  VidFrame, VidFilt, Vtx, Video, VidEffect, encode, encoded, sends, Encoding, packet, ends,
  VideoEnv, srate, max_muted_frames, enc_of, put_enc,
}

-- `err |= st->vf->ench(st, frame)` for each filter that has the handler
unfoldable pub run_filters :
    (VidFilt → Option (VidFrame → ℕ × VidFrame)) → List VidFilt → ℕ → VidFrame → ℕ × VidFrame
run_filters handler [] err f = (err, f)
run_filters handler (vf ∷ vfs) err f = elim (handler vf) [
  | none ↦ run_filters handler vfs err f
  | some h ↦ let (e, f') = h f in run_filters handler vfs (bit_or err e) f'
]

module _ {J : Type 0} where
  -- a packet of an encoder, sent with the time stamp of the frame
  unfoldable pub vidcodec_send_handler :
      SendEnv → ℕ → Bool → Bytes → Stream J → (ℕ × List SendEffect) × Stream J
  unfolding stream_send
  vidcodec_send_handler net ts marker mb s = stream_send net marker none ts mb s

  -- the encoder to its end: what is sent, the stream, the encoder's error and its state
  unfoldable pub run_encoder :
      {C : Type 0} → SendEnv → ℕ → Encoding C → Stream J → (List SendEffect × Stream J) × (ℕ × C)
  unfolding vidcodec_send_handler
  run_encoder net ts (ends err c) s = (([], s), (err, c))
  run_encoder net ts (packet marker mb k) s =
      let ((err, sent), s') = vidcodec_send_handler net ts marker mb s in
      let ((more, s''), r) = run_encoder net ts (k err) s' in ((sent ++ more, s''), r)

abbrev pub fits : VidFrame → Vtx → Bool
fits f vtx = f.yuv420p && f.w == vtx.src_w && f.h == vtx.src_h

abbrev pub or_size : Option (ℕ × ℕ) → ℕ × ℕ → ℕ × ℕ
or_size none size = size
or_size (some size) new = size

abbrev pub is_some : {A : Type 0} → Option A → Bool
is_some none = false
is_some (some a) = true

-- the frame to convert to, and the conversion
abbrev pub converted : {C : Type 0} → VideoEnv C → VidFrame → Vtx → VidFrame
converted env f vtx =
    let size = or_size vtx.frame (vtx.src_w, vtx.src_h) in
    record { yuv420p = true; w = size.0; h = size.1; pixels = env.vidconv f size }

module _ {J C : Type 0} where
  -- The number is an `int`, which counts frames that are not muted too. It is only read while the
  -- video is muted, and muting sets it to 0: what it is past the greatest `int` is never seen.
  abbrev pub count_muted : Video J C → Video J C
  count_muted v = record v { vtx = record v.vtx { muted_frames = v.vtx.muted_frames + 1 } }

  -- what was seen, before what was seen later
  abbrev pub after_seen :
      {A : Type 0} → List A → Option (List A × Video J C) → Option (List A × Video J C)
  after_seen es none = none
  after_seen es (some (more, v)) = some (es ++ more, v)

  abbrev pub and_then :
      {A : Type 0}
      → Option (List A × Video J C)
      → (Video J C → Option (List A × Video J C))
      → Option (List A × Video J C)
  and_then none rest = none
  and_then (some (es, v)) rest = after_seen es (rest v)

  abbrev pub counted : Option (List VidEffect × Video J C) → Option (List VidEffect × Video J C)
  counted none = none
  counted (some (es, v)) = some (es, count_muted v)

  abbrev pub set_mute_frame : VidFrame → Video J C → Video J C
  set_mute_frame f v = record v { vtx = record v.vtx { mute_frame = some f } }

  abbrev pub count_frame : Video J C → Video J C
  count_frame v = record v { vtx = record v.vtx { frames = v.vtx.frames + 1 } }

  -- The filters write into the frame of a muted video, where it needs no conversion.
  abbrev pub left_in_place : VidFrame → Video J C → VidFrame
  left_in_place f v =
      if is_some (enc_of v.codecs) && fits f v.vtx
      then (run_filters VidFilt.ench v.filtl 0 f).1
      else f

module _ {J C : Type 0} (env : VideoEnv C) where
  abbrev pub advance : Video J C → Option (Video J C)
  advance v =
      if v.vtx.fps == 0
      then none
      else some (record v {
        vtx = record v.vtx { ts_tx = add_word v.vtx.ts_tx (srate / v.vtx.fps); picup = false };
      })

  abbrev pub after_encode : List VidEffect → ℕ → Video J C → Option (List VidEffect × Video J C)
  after_encode es err v =
      if err == 0 then elim (advance v) [ none ↦ none | some v' ↦ some (es, v') ] else some (es, v)

  -- the whole picture frame
  abbrev pub encode_with : Vidcodec → C → VidFrame → Video J C → Option (List VidEffect × Video J C)
  encode_with vc c f v =
      let ((sent, strm), (err, c')) =
        run_encoder env.net v.vtx.ts_tx (env.ench vc v.vtx.picup f c) v.strm in
      after_encode (encode v.vtx.picup f ∷ map sends sent ++ encoded err ∷ []) err
        (record v { strm = strm; codecs = put_enc c' v.codecs })

  abbrev pub encode_filtered :
      Vidcodec → C → ℕ × VidFrame → Video J C → Option (List VidEffect × Video J C)
  encode_filtered vc c (err, f) v = if err == 0 then encode_with vc c f v else some ([], v)

  abbrev pub encode_converted :
      Vidcodec → C → VidFrame → Video J C → Option (List VidEffect × Video J C)
  encode_converted vc c f v =
      if is_some v.vtx.frame || env.mem
      then encode_filtered vc c (run_filters VidFilt.ench v.filtl 0 (converted env f v.vtx))
          (record v {
            vtx = record v.vtx { frame = some (or_size v.vtx.frame (v.vtx.src_w, v.vtx.src_h)) };
          })
      else some ([], v)

  abbrev pub encode_at :
      Option (Vidcodec × C) → VidFrame → Video J C → Option (List VidEffect × Video J C)
  encode_at none f v = some ([], v)
  encode_at (some (vc, c)) f v =
      if fits f v.vtx
      then encode_filtered vc c (run_filters VidFilt.ench v.filtl 0 f) v
      else encode_converted vc c f v

  unfoldable pub video_encode_rtp_send : VidFrame → Video J C → Option (List VidEffect × Video J C)
  unfolding run_filters run_encoder
  video_encode_rtp_send f v = encode_at (enc_of v.codecs) f v

  abbrev pub sent_and_counted : VidFrame → Video J C → Option (List VidEffect × Video J C)
  sent_and_counted f v = counted (video_encode_rtp_send f v)

  abbrev pub send_muted : Option VidFrame → Video J C → Option (List VidEffect × Video J C)
  send_muted none v = if is_some (enc_of v.codecs) then none else some ([], count_muted v)
  send_muted (some f) v = sent_and_counted f (set_mute_frame (left_in_place f v) v)

  abbrev pub handle_counted : VidFrame → Video J C → Option (List VidEffect × Video J C)
  handle_counted f v =
      if v.vtx.muted
      then if leb max_muted_frames v.vtx.muted_frames
        then some ([], v)
        else send_muted v.vtx.mute_frame v
      else sent_and_counted f v

  unfoldable pub vidsrc_frame_handler : VidFrame → Video J C → Option (List VidEffect × Video J C)
  unfolding video_encode_rtp_send run_filters
  vidsrc_frame_handler f v = handle_counted f (count_frame v)

  -- frames one after the other
  unfoldable pub vidsrc_frames : List VidFrame → Video J C → Option (List VidEffect × Video J C)
  unfolding vidsrc_frame_handler
  vidsrc_frames [] v = some ([], v)
  vidsrc_frames (f ∷ fs) v = and_then (vidsrc_frame_handler f v) (λ v'. vidsrc_frames fs v')

unfoldable pub vidsrc_error_handler : {J C : Type 0} → Video J C → Video J C
vidsrc_error_handler v = record v { vtx = record v.vtx { vsrc = false } }
