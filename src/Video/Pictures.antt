-- ===== src/Video/Pictures.antt =====
-- Which pictures of a video are sent whole, and with which time stamps (jni/baresip/src/video.c).
use bare_sip_android.Prelude.{
  if_either, ℕ, ◌/◌, ◌≡◌, refl, sym, ap, subst, ◌∙◌, Bool, false, Option, none, some, List, [], ◌∷◌,
  map, ◌==◌, ◌||◌, leb, if◌then◌else◌, Bytes, Bool-cases, inl, inr, All,
}
use bare_sip_android.Stream.State.{add_word}
use bare_sip_android.Registry.Device.{Vidcodec}
use bare_sip_android.Video.State.{
  VidFrame, VidFilt, Vtx, Video, VidEffect, dec_of, put_dec, encoded, sends, VideoEnv, srate,
  max_muted_frames, enc_of,
}
use bare_sip_android.Video.Encode.{
  run_encoder, run_filters, fits, is_some, after_encode, encode_with, encode_filtered,
  encode_converted, encode_at, video_encode_rtp_send, sent_and_counted, set_mute_frame,
  left_in_place, send_muted, count_frame, vidsrc_frame_handler,
}
use bare_sip_android.Video.Decode.{
  VidHeader, decoded_frame, decode_at, change_decoder, same_pt, video_stream_decode,
  video_pt_handler, video_recv_handler, rtcp_fir, rtcp_other, rtcp_psfb, rtcp_psfb_pli,
  video_rtcp_handler, video_update_picture, video_encoder_set, video_decoder_set,
}
use bare_sip_android.Video.Control.{
  VidEvent, source_frame, rtcp, received, mute, set_enc, set_dec, Seen, did, seen, video_mute,
  video_step, video_run,
}
use bare_sip_android.Video.Due.{
  Due, due_of, due_after, dues_after, AllDue, IsQuiet, Follows, then-Follows, count-Follows,
  map_append, sent_due, due_after_sent, run_encoder_due, display-IsQuiet, quiet_due,
}

module _ {J C : Type 0} (env : VideoEnv C) where
  finish-Follows :
      (es : List VidEffect) (d : Due) (err : ℕ) (v : Video J C)
      → AllDue (srate / v.vtx.fps) d (map did es)
      → dues_after (srate / v.vtx.fps) d (map did es)
        ≡ due_after (srate / v.vtx.fps) (due_of v) (did (encoded err))
      → Follows v.vtx.fps d (seen (after_encode env es err v))
  unfolding Follows
  finish-Follows es d err v a e = elim (Bool-cases (err == 0)) [
    | inl z ↦ elim (Bool-cases (v.vtx.fps == 0)) [
      | inl y ↦ rw (z, y) tt
      | inr y ↦
          rw (z, y)
            (
              a,
              (
                subst
                    (λ b. dues_after (srate / v.vtx.fps) d (map did es) ≡ (
                      if b
                      then record { full = false; ts = add_word v.vtx.ts_tx (srate / v.vtx.fps) }
                      else due_of v))
                    z e,
                refl,
              ),
            )
    ]
    | inr z ↦ rw (z) (
      a,
      (
        subst
            (λ b. dues_after (srate / v.vtx.fps) d (map did es) ≡ (
              if b
              then record { full = false; ts = add_word v.vtx.ts_tx (srate / v.vtx.fps) }
              else due_of v))
            z e,
        refl,
      ),
    )
  ]

  encode-Follows :
      (vc : Vidcodec) (c : C) (f : VidFrame) (v : Video J C)
      → Follows v.vtx.fps (due_of v) (seen (encode_with env vc c f v))
  unfolding run_encoder
  encode-Follows vc c f v =
      let r = run_encoder env.net v.vtx.ts_tx (env.ench vc v.vtx.picup f c) v.strm in
      let step = srate / v.vtx.fps in
      finish-Follows _ (due_of v) r.1.0 _
        (
          refl,
          subst (AllDue step (due_of v)) (sym (map_append (map sends r.0.0) (encoded r.1.0 ∷ []))) (
              sent_due step (due_of v) r.0.0 (did (encoded r.1.0) ∷ [])
                (run_encoder_due env.net (due_of v) (env.ench vc v.vtx.picup f c) v.strm) (tt, tt)),
        )
        (ap (dues_after step (due_of v)) (map_append (map sends r.0.0) (encoded r.1.0 ∷ []))
          ∙ due_after_sent step (due_of v) r.0.0 (did (encoded r.1.0) ∷ []))

  filtered-Follows :
      (vc : Vidcodec) (c : C) (r : ℕ × VidFrame) (v : Video J C)
      → Follows v.vtx.fps (due_of v) (seen (encode_filtered env vc c r v))
  unfolding Follows
  filtered-Follows vc c (err, f) v = elim (Bool-cases (err == 0)) [
    | inl z ↦ rw (z) (encode-Follows vc c f v)
    | inr z ↦ rw (z) (tt, (refl, refl))
  ]

  converted-Follows :
      (vc : Vidcodec) (c : C) (f : VidFrame) (v : Video J C)
      → Follows v.vtx.fps (due_of v) (seen (encode_converted env vc c f v))
  unfolding Follows
  converted-Follows vc c f v = elim (Bool-cases (is_some v.vtx.frame || env.mem)) [
    | inl z ↦ rw (z) (filtered-Follows vc c _ _)
    | inr z ↦ rw (z) (tt, (refl, refl))
  ]

  at-Follows :
      (o : Option (Vidcodec × C)) (f : VidFrame) (v : Video J C)
      → Follows v.vtx.fps (due_of v) (seen (encode_at env o f v))
  unfolding Follows
  at-Follows none f v = (tt, (refl, refl))
  at-Follows (some (vc, c)) f v = elim (Bool-cases (fits f v.vtx)) [
    | inl z ↦ rw (z) (filtered-Follows vc c (run_filters VidFilt.ench v.filtl 0 f) v)
    | inr z ↦ rw (z) (converted-Follows vc c f v)
  ]

  counted-Follows :
      (f : VidFrame) (v : Video J C)
      → Follows v.vtx.fps (due_of v) (seen (sent_and_counted env f v))
  unfolding video_encode_rtp_send
  counted-Follows f v = count-Follows v.vtx.fps (due_of v) _ (at-Follows (enc_of v.codecs) f v)

  muted-Follows :
      (o : Option VidFrame) (v : Video J C)
      → Follows v.vtx.fps (due_of v) (seen (send_muted env o v))
  unfolding Follows
  muted-Follows none v = elim (Bool-cases (is_some (enc_of v.codecs))) [
    | inl z ↦ rw (z) tt
    | inr z ↦ rw (z) (tt, (refl, refl))
  ]
  muted-Follows (some f) v = counted-Follows f (set_mute_frame (left_in_place f v) v)

  handler-Follows :
      (f : VidFrame) (v : Video J C)
      → Follows v.vtx.fps (due_of v) (seen (vidsrc_frame_handler env f v))
  unfolding Follows vidsrc_frame_handler
  handler-Follows f v =
      let P : Option (List VidEffect × Video J C) → Type 0 =
        λ o. Follows v.vtx.fps (due_of v) (seen o) in
      if_either P v.vtx.muted
        (if_either P (leb max_muted_frames v.vtx.muted_frames) (tt, (refl, refl))
          (muted-Follows v.vtx.mute_frame (count_frame v)))
        (counted-Follows f (count_frame v))

  Quiet : Vtx → List VidEffect × Video J C → Type 0
  Quiet vtx (es, v) = All IsQuiet es × (v.vtx ≡ vtx)

  decoded-Quiet :
      (o : Option VidFrame) (v : Video J C)
      → Quiet v.vtx ((decoded_frame env o v).0.1, (decoded_frame env o v).1)
  unfolding Quiet run_filters
  decoded-Quiet none v = (tt, refl)
  decoded-Quiet (some f) v = (display-IsQuiet env v.vrx.vidisp v.peer _, refl)

  decode-Quiet :
      (o : Option (Vidcodec × C)) (m : Bool) (mb : Option Bytes) (v : Video J C)
      → Quiet v.vtx ((decode_at env o m mb v).0.1, (decode_at env o m mb v).1)
  unfolding Quiet IsQuiet
  decode-Quiet none m mb v = (tt, refl)
  decode-Quiet (some (vc, c)) m mb v =
      let ((err, frame), c') = env.dech vc m mb c in
      elim (Bool-cases (err == 0)) [
        | inl z ↦ rw (z) (decoded-Quiet frame (record v { codecs = put_dec c' v.codecs }))
        | inr z ↦ rw (z) ((tt, tt), refl)
      ]

  change_vtx : (o : Option (Vidcodec × ℕ)) (v : Video J C) → (change_decoder env o v).1.vtx ≡ v.vtx
  unfolding video_decoder_set
  change_vtx none v = refl
  change_vtx (some (vc, pt)) v = refl

  recv-Quiet :
      (hdr : VidHeader) (mb : Option Bytes) (v : Video J C)
      → Quiet v.vtx (video_recv_handler env hdr mb v)
  unfolding Quiet video_recv_handler video_stream_decode video_pt_handler
  recv-Quiet hdr none v = decode-Quiet (dec_of v.codecs) hdr.m none v
  recv-Quiet hdr (some mb) v =
      let (perr, v') = video_pt_handler env hdr.pt v in
      let k = change_vtx (env.lformat hdr.pt) v in
      let (q, e) = decode-Quiet (dec_of v'.codecs) hdr.m (some mb) v' in
      if_either (Quiet v.vtx) (same_pt hdr.pt v.vrx.pt_rx)
        (decode-Quiet (dec_of v.codecs) hdr.m (some mb) v)
        (if_either (Quiet v.vtx) (perr == 0) (q, e ∙ k) (tt, k))

  step-Follows : (e : VidEvent) (v : Video J C) → Follows v.vtx.fps (due_of v) (video_step env e v)
  unfolding Follows Quiet video_step video_rtcp_handler video_mute video_update_picture
      video_encoder_set video_decoder_set
  step-Follows (source_frame f) v = handler-Follows f v
  step-Follows (rtcp rtcp_fir) v = ((tt, tt), (refl, refl))
  step-Follows (rtcp rtcp_other) v = (tt, (refl, refl))
  step-Follows (rtcp (rtcp_psfb count)) v = elim (Bool-cases (count == rtcp_psfb_pli)) [
    | inl z ↦ rw (z) ((tt, tt), (refl, refl))
    | inr z ↦ rw (z) (tt, (refl, refl))
  ]
  step-Follows (received hdr mb) v =
      let (q, k) = recv-Quiet hdr mb v in
      let (a, e) = quiet_due (srate / v.vtx.fps) (due_of v) (video_recv_handler env hdr mb v).0 q in
      (a, (e ∙ ap (λ x. record { full = Vtx.picup x; ts = Vtx.ts_tx x }) (sym k), ap Vtx.fps k))
  step-Follows (mute muted) v = ((tt, tt), (refl, refl))
  step-Follows (set_enc vc pt) v = (tt, (refl, refl))
  step-Follows (set_dec vc pt) v = (tt, (refl, refl))

  run-Follows :
      (fps : ℕ) (es : List VidEvent) (v : Video J C)
      → v.vtx.fps ≡ fps
      → Follows fps (due_of v) (video_run env es v)
  unfolding Follows video_run
  run-Follows fps [] v e = (tt, (refl, e))
  run-Follows fps (x ∷ es) v e =
      then-Follows fps (due_of v) (video_step env x v) (video_run env es)
        (subst (λ n. Follows n (due_of v) (video_step env x v)) e (step-Follows x v))
        (λ w f. run-Follows fps es w f)

  -- In a run of a video, frames from its source with whatever is received, muting and new codecs
  -- between them, every call of the encoder asks for a full picture exactly where one was
  -- requested since the last frame that was encoded without an error, and every packet has the time
  -- stamp of the start advanced by the period of a frame for each frame encoded without an error
  -- before. What the video has at the end is what is due then.
  pub video_run-AllDue :
      (es : List VidEvent) (ss : List Seen) (v v' : Video J C)
      → video_run env es v ≡ some (ss, v')
      → AllDue (srate / v.vtx.fps) (due_of v) ss
        × (dues_after (srate / v.vtx.fps) (due_of v) ss ≡ due_of v')
  unfolding Follows
  video_run-AllDue es ss v v' e =
      let (a, (b, f)) = subst (Follows v.vtx.fps (due_of v)) e (run-Follows v.vtx.fps es v refl) in
      (a, b)
