-- ===== src/Video/Muted.antt =====
-- What a muted video sends (jni/baresip/src/video.c, vidsrc_frame_handler).
use bare_sip_android.Prelude.{
  ℕ, suc, ◌+◌, ◌-◌, ◌≤◌, ◌≡◌, refl, sym, ap, ◌∙◌, Bool, true, false, Option, none, some, List, [],
  ◌∷◌, ◌++◌, map, length, arith, leb, if◌then◌else◌, Bool-cases, inl, inr, ap, subst,
}
use bare_sip_android.Stream.Send.{SendEffect}
use bare_sip_android.Registry.Device.{Vidcodec}
use bare_sip_android.Video.State.{
  VidFrame, VidFilt, Video, VidEffect, encode, encoded, sends, send_fir, display, vidsrc_updated,
  vidisp_updated, VideoEnv, max_muted_frames, enc_of,
}
use bare_sip_android.Video.Encode.{
  run_encoder, run_filters, after_encode, encode_with, encode_filtered, encode_at,
  video_encode_rtp_send, after_seen, and_then, counted, sent_and_counted, set_mute_frame, converted,
  or_size, left_in_place, send_muted, count_frame, vidsrc_frame_handler, vidsrc_frames,
}

-- how often the encoder is called
abbrev pub calls : List VidEffect → ℕ
calls [] = 0
calls (encode update f ∷ es) = suc (calls es)
calls (_ ∷ es) = calls es

calls-append : (es fs : List VidEffect) → calls (es ++ fs) ≡ calls es + calls fs
calls-append [] fs = omega arith
calls-append (encode update f ∷ es) fs = omega (arith, calls-append es fs)
calls-append (encoded err ∷ es) fs = calls-append es fs
calls-append (sends e ∷ es) fs = calls-append es fs
calls-append (send_fir pli ∷ es) fs = calls-append es fs
calls-append (display title f ∷ es) fs = calls-append es fs
calls-append (vidsrc_updated prm ∷ es) fs = calls-append es fs
calls-append (vidisp_updated full orient ∷ es) fs = calls-append es fs

calls-sends : (es : List SendEffect) (fs : List VidEffect) → calls (map sends es ++ fs) ≡ calls fs
calls-sends [] fs = refl
calls-sends (e ∷ es) fs = calls-sends es fs

-- What happens, if anything does, calls the encoder `n` times at most, and the video is muted after
-- it, with a number of frames.
abbrev Kept : {J C : Type 0} → ℕ → Bool → ℕ → Option (List VidEffect × Video J C) → Type 0
Kept n muted k none = Unit
Kept n muted k (some (es, v)) = (calls es ≤ n) × ((v.vtx.muted ≡ muted) × (v.vtx.muted_frames ≡ k))

module _ {J C : Type 0} (env : VideoEnv C) where
  advance-Kept :
      (es : List VidEffect) (v : Video J C)
      → calls es ≤ 1
      → (err : ℕ) → Kept 1 v.vtx.muted v.vtx.muted_frames (after_encode env es err v)
  advance-Kept es v h err = ground (arith, h)

  encode-Kept :
      (vc : Vidcodec) (c : C) (f : VidFrame) (v : Video J C)
      → Kept 1 v.vtx.muted v.vtx.muted_frames (encode_with env vc c f v)
  unfolding run_encoder
  encode-Kept vc c f v =
      let r = run_encoder env.net v.vtx.ts_tx (env.ench vc v.vtx.picup f c) v.strm in
      advance-Kept _ _ (omega (arith, calls-sends r.0.0 (encoded r.1.0 ∷ []))) r.1.0

  filtered-Kept :
      (vc : Vidcodec) (c : C) (r : ℕ × VidFrame) (v : Video J C)
      → Kept 1 v.vtx.muted v.vtx.muted_frames (encode_filtered env vc c r v)
  filtered-Kept vc c (err, f) v = ground (arith, encode-Kept vc c f v)

  at-Kept :
      (o : Option (Vidcodec × C)) (f : VidFrame) (v : Video J C)
      → Kept 1 v.vtx.muted v.vtx.muted_frames (encode_at env o f v)
  at-Kept none f v = ground arith
  at-Kept (some (vc, c)) f v = ground (
    arith,
    filtered-Kept vc c (run_filters VidFilt.ench v.filtl 0 f) v,
    filtered-Kept vc c (run_filters VidFilt.ench v.filtl 0 (converted env f v.vtx)) (record v {
      vtx = record v.vtx { frame = some (or_size v.vtx.frame (v.vtx.src_w, v.vtx.src_h)) };
    }),
  )

  count-Kept :
      (n : ℕ) (m : Bool) (k : ℕ) (o : Option (List VidEffect × Video J C))
      → Kept n m k o
      → Kept n m (k + 1) (counted o)
  count-Kept n m k none h = tt
  count-Kept n m k (some (es, v)) (c, (e, f)) = (c, (e, ap (λ i. i + 1) f))

  -- what the handler does for a muted video does not read the frame
  muted_handler :
      (f : VidFrame) (v : Video J C)
      → v.vtx.muted ≡ true
      → vidsrc_frame_handler env f v ≡ (
          if leb max_muted_frames v.vtx.muted_frames
          then some ([], count_frame v)
          else send_muted env v.vtx.mute_frame (count_frame v))
  unfolding vidsrc_frame_handler
  muted_handler f v m =
      ap
        (λ b.
          if b
          then (if leb max_muted_frames v.vtx.muted_frames
              then some ([], count_frame v)
              else send_muted env v.vtx.mute_frame (count_frame v))
          else sent_and_counted env f (count_frame v))
        m

  -- The encoder was called, and `k` frames had been before.
  Bounded : ℕ → Option (List VidEffect × Video J C) → Type 0
  Bounded k none = Unit
  Bounded k (some (es, v)) =
      (calls es + (max_muted_frames - v.vtx.muted_frames) ≤ max_muted_frames - k)
      × (v.vtx.muted ≡ true)

  kept→bounded :
      (k : ℕ) (o : Option (List VidEffect × Video J C))
      → leb max_muted_frames k ≡ false
      → Kept 1 true (k + 1) o
      → Bounded k o
  unfolding Bounded
  kept→bounded k none l h = tt
  kept→bounded k (some (es, v)) l (c, (m, e)) = (rw (e) (ground (arith, l, c)), m)

  send-Bounded :
      (o : Option VidFrame) (v : Video J C)
      → v.vtx.muted ≡ true
      → leb max_muted_frames v.vtx.muted_frames ≡ false
      → Bounded v.vtx.muted_frames (send_muted env o v)
  unfolding Bounded video_encode_rtp_send
  send-Bounded none v m l = ground (arith, m, l)
  send-Bounded (some f) v m l = kept→bounded v.vtx.muted_frames _ l (
      subst (λ b. Kept 1 b (v.vtx.muted_frames + 1) (send_muted env (some f) v)) m
        (count-Kept 1 v.vtx.muted v.vtx.muted_frames _
          (at-Kept (enc_of v.codecs) f (set_mute_frame (left_in_place f v) v))))

  after-Bounded :
      (es : List VidEffect) (v : Video J C) (k : ℕ) (o : Option (List VidEffect × Video J C))
      → Bounded k (some (es, v))
      → Bounded v.vtx.muted_frames o
      → Bounded k (after_seen es o)
  unfolding Bounded
  after-Bounded es v k none b h = tt
  after-Bounded es v k (some (more, end)) (b, m) (c, n) =
      (omega (arith, calls-append es more, b, c), n)

  then-Bounded :
      (k : ℕ) (o : Option (List VidEffect × Video J C))
      (rest : Video J C → Option (List VidEffect × Video J C))
      → Bounded k o
      → ((v : Video J C) → v.vtx.muted ≡ true → Bounded v.vtx.muted_frames (rest v))
      → Bounded k (and_then o rest)
  unfolding Bounded
  then-Bounded k none rest b h = tt
  then-Bounded k (some (es, v)) rest (b, m) h = after-Bounded es v k (rest v) (b, m) (h v m)

  frame-Bounded :
      (f : VidFrame) (v : Video J C)
      → v.vtx.muted ≡ true
      → Bounded v.vtx.muted_frames (vidsrc_frame_handler env f v)
  unfolding Bounded vidsrc_frame_handler
  frame-Bounded f v m =
      subst (Bounded v.vtx.muted_frames) (sym (muted_handler f v m))
        (elim (Bool-cases (leb max_muted_frames v.vtx.muted_frames)) [
          | inl l ↦ rw (l) (omega arith, m)
          | inr l ↦ rw (l) (send-Bounded v.vtx.mute_frame (count_frame v) m l)
        ])

  frames-Bounded :
      (fs : List VidFrame) (v : Video J C)
      → v.vtx.muted ≡ true
      → Bounded v.vtx.muted_frames (vidsrc_frames env fs v)
  unfolding Bounded vidsrc_frames
  frames-Bounded [] v m = (omega arith, m)
  frames-Bounded (f ∷ fs) v m =
      then-Bounded v.vtx.muted_frames (vidsrc_frame_handler env f v) (vidsrc_frames env fs)
        (frame-Bounded f v m) (λ v' m'. frames-Bounded fs v' m')

  -- While a video is muted, the encoder is called for no more frames than are left of three since
  -- it was muted.
  pub vidsrc_frames-calls :
      (fs : List VidFrame) (es : List VidEffect) (v v' : Video J C)
      → v.vtx.muted ≡ true
      → vidsrc_frames env fs v ≡ some (es, v')
      → calls es ≤ max_muted_frames - v.vtx.muted_frames
  unfolding Bounded
  vidsrc_frames-calls fs es v v' m e =
      let (b, n) = subst (Bounded v.vtx.muted_frames) e (frames-Bounded fs v m) in omega (arith, b)

  blind_then :
      (k : ℕ) (o : Option (List VidEffect × Video J C))
      (rest other : Video J C → Option (List VidEffect × Video J C))
      → Bounded k o
      → ((v : Video J C) → v.vtx.muted ≡ true → rest v ≡ other v)
      → and_then o rest ≡ and_then o other
  unfolding Bounded
  blind_then k none rest other b h = refl
  blind_then k (some (es, v)) rest other (b, m) h = ap (after_seen es) (h v m)

  -- What is done while a video is muted does not depend on the frames of the source: any other
  -- frames, as many, give the same.
  pub vidsrc_frames-muted :
      (fs gs : List VidFrame) (v : Video J C)
      → v.vtx.muted ≡ true
      → length fs ≡ length gs
      → vidsrc_frames env fs v ≡ vidsrc_frames env gs v
  unfolding vidsrc_frames
  vidsrc_frames-muted [] [] v m e = refl
  vidsrc_frames-muted [] (g ∷ gs) v m e = ground (arith, e)
  vidsrc_frames-muted (f ∷ fs) [] v m e = ground (arith, e)
  vidsrc_frames-muted (f ∷ fs) (g ∷ gs) v m e =
      ap (λ o. and_then o (vidsrc_frames env fs)) (muted_handler f v m ∙ sym (muted_handler g v m))
      ∙ blind_then v.vtx.muted_frames (vidsrc_frame_handler env g v) (vidsrc_frames env fs)
          (vidsrc_frames env gs) (frame-Bounded g v m)
          (λ v' m'. vidsrc_frames-muted fs gs v' m' (omega (arith, e)))
