-- ===== src/Video/Due.antt =====
-- What is due to be sent of a video, and what a run that is seen makes due (jni/baresip/src/video.c).
use bare_sip_android.Prelude.{
  ℕ, ◌/◌, ◌≡◌, refl, sym, ap, subst, ◌∙◌, Bool, true, false, Option, none, some, List, [], ◌∷◌,
  ◌++◌, map, ◌==◌, if◌then◌else◌, Bytes, arith, All,
}
use bare_sip_android.Stream.State.{Stream, add_word}
use bare_sip_android.Stream.Send.{SendEnv, SendEffect, rtp_send, stream_send}
use bare_sip_android.Video.State.{
  VidFrame, Video, VidEffect, encode, encoded, sends, send_fir, display, vidsrc_updated,
  vidisp_updated, Encoding, packet, ends, VideoEnv, srate,
}
use bare_sip_android.Video.Encode.{
  vidcodec_send_handler, run_encoder, after_seen, and_then, counted,
}
use bare_sip_android.Video.Decode.{vidisp_display}
use bare_sip_android.Video.Control.{Seen, asked, did, seen}

-- A full picture is due or not, and the time stamp that is.
pub record Due : Type 0 where
  pub full : Bool
  pub ts : ℕ

abbrev pub due_of : {J C : Type 0} → Video J C → Due
due_of v = record { full = v.vtx.picup; ts = v.vtx.ts_tx }

-- A request makes a full picture due; a frame that is encoded without an error ends that, and the
-- next one is due `step` later.
abbrev pub due_after : ℕ → Due → Seen → Due
due_after step d asked = record d { full = true }
due_after step d (did (encoded err)) =
    if err == 0 then record { full = false; ts = add_word d.ts step } else d
due_after step d _ = d

abbrev pub dues_after : ℕ → Due → List Seen → Due
dues_after step d [] = d
dues_after step d (s ∷ ss) = dues_after step (due_after step d s) ss

-- the encoder is called for what is due, and packets have the time stamp that is due
abbrev pub SentAs : Due → SendEffect → Type 0
SentAs d (rtp_send m pt ts mb) = ts ≡ d.ts
SentAs d _ = Unit

abbrev pub SeenAs : Due → Seen → Type 0
SeenAs d (did (encode full f)) = full ≡ d.full
SeenAs d (did (sends e)) = SentAs d e
SeenAs d _ = Unit

abbrev pub AllDue : ℕ → Due → List Seen → Type 0
AllDue step d [] = Unit
AllDue step d (s ∷ ss) = SeenAs d s × AllDue step (due_after step d s) ss

AllDue-append :
    (step : ℕ) (d : Due) (ss ts : List Seen)
    → AllDue step d ss
    → AllDue step (dues_after step d ss) ts
    → AllDue step d (ss ++ ts)
AllDue-append step d [] ts a b = b
AllDue-append step d (s ∷ ss) ts (h, a) b = (h, AllDue-append step (due_after step d s) ss ts a b)

dues_after-append :
    (step : ℕ) (d : Due) (ss ts : List Seen)
    → dues_after step d (ss ++ ts) ≡ dues_after step (dues_after step d ss) ts
dues_after-append step d [] ts = refl
dues_after-append step d (s ∷ ss) ts = dues_after-append step (due_after step d s) ss ts

append_sent :
    (d : Due) (es fs : List SendEffect)
    → All (SentAs d) es
    → All (SentAs d) fs
    → All (SentAs d) (es ++ fs)
append_sent d [] fs a b = b
append_sent d (e ∷ es) fs (h, a) b = (h, append_sent d es fs a b)

pub sent_due :
    (step : ℕ) (d : Due) (es : List SendEffect) (ss : List Seen)
    → All (SentAs d) es
    → AllDue step d ss
    → AllDue step d (map did (map sends es) ++ ss)
sent_due step d [] ss a b = b
sent_due step d (e ∷ es) ss (h, a) b = (h, sent_due step d es ss a b)

pub due_after_sent :
    (step : ℕ) (d : Due) (es : List SendEffect) (ss : List Seen)
    → dues_after step d (map did (map sends es) ++ ss) ≡ dues_after step d ss
due_after_sent step d [] ss = refl
due_after_sent step d (e ∷ es) ss = due_after_sent step d es ss

pub map_append : (es fs : List VidEffect) → map did (es ++ fs) ≡ map did es ++ map did fs
map_append [] fs = refl
map_append (e ∷ es) fs = ap (λ l. did e ∷ l) (map_append es fs)

module _ {J : Type 0} where
  stream_send_due :
      (net : SendEnv) (m : Bool) (d : Due) (mb : Bytes) (s : Stream J)
      → All (SentAs d) (stream_send net m none d.ts mb s).0.1
  unfolding stream_send
  stream_send_due net m d mb s = ground arith

  pub run_encoder_due :
      {C : Type 0} (net : SendEnv) (d : Due) (e : Encoding C) (s : Stream J)
      → All (SentAs d) (run_encoder net d.ts e s).0.0
  unfolding run_encoder vidcodec_send_handler
  run_encoder_due net d (ends err c) s = tt
  run_encoder_due net d (packet m mb k) s = append_sent d _ _ (stream_send_due net m d mb s) (
      run_encoder_due net d (k (stream_send net m none d.ts mb s).0.0)
        (stream_send net m none d.ts mb s).1)

module _ {J C : Type 0} (fps : ℕ) where
  -- What was seen follows what was due, and leaves due what the video has; the frame rate stays.
  unfoldable pub Follows : Due → Option (List Seen × Video J C) → Type 0
  Follows d none = Unit
  Follows d (some (ss, v)) =
      AllDue (srate / fps) d ss × ((dues_after (srate / fps) d ss ≡ due_of v) × (v.vtx.fps ≡ fps))

  pub after-Follows :
      (d : Due) (ss : List Seen) (v : Video J C) (o : Option (List Seen × Video J C))
      → Follows d (some (ss, v))
      → Follows (due_of v) o
      → Follows d (after_seen ss o)
  unfolding Follows
  after-Follows d ss v none h k = tt
  after-Follows d ss v (some (ts, w)) (a, (e, f)) (b, (g, h)) = (
    AllDue-append (srate / fps) d ss ts a (subst (λ n. AllDue (srate / fps) n ts) (sym e) b),
    (dues_after-append (srate / fps) d ss ts ∙ ap (λ n. dues_after (srate / fps) n ts) e ∙ g, h),
  )

  pub then-Follows :
      (d : Due) (o : Option (List Seen × Video J C))
      (rest : Video J C → Option (List Seen × Video J C))
      → Follows d o
      → ((v : Video J C) → v.vtx.fps ≡ fps → Follows (due_of v) (rest v))
      → Follows d (and_then o rest)
  unfolding Follows
  then-Follows d none rest h k = tt
  then-Follows d (some (ss, v)) rest (a, (e, f)) k =
      after-Follows d ss v (rest v) (a, (e, f)) (k v f)

  pub count-Follows :
      (d : Due) (o : Option (List VidEffect × Video J C))
      → Follows d (seen o)
      → Follows d (seen (counted o))
  unfolding Follows
  count-Follows d none h = tt
  count-Follows d (some (es, v)) h = h

-- neither a call of the encoder nor its end, and nothing sent but a request
unfoldable pub IsQuiet : VidEffect → Type 0
IsQuiet (send_fir pli) = Unit
IsQuiet (display title f) = Unit
IsQuiet _ = true ≡ false

pub display-IsQuiet :
    {C : Type 0} (env : VideoEnv C) (b : Bool) (title : Option Bytes) (f : VidFrame)
    → All IsQuiet (vidisp_display env b title f).1
unfolding IsQuiet vidisp_display
display-IsQuiet env true title f = (tt, tt)
display-IsQuiet env false title f = tt

pub quiet_due :
    (step : ℕ) (d : Due) (es : List VidEffect)
    → All IsQuiet es
    → AllDue step d (map did es) × (dues_after step d (map did es) ≡ d)
unfolding IsQuiet
quiet_due step d [] q = (tt, refl)
quiet_due step d (send_fir pli ∷ es) (q, qs) = let (a, e) = quiet_due step d es qs in ((tt, a), e)
quiet_due step d (display title f ∷ es) (q, qs) =
    let (a, e) = quiet_due step d es qs in ((tt, a), e)
quiet_due step d (encode full f ∷ es) (q, qs) = ground (arith, q)
quiet_due step d (encoded err ∷ es) (q, qs) = ground (arith, q)
quiet_due step d (sends e ∷ es) (q, qs) = ground (arith, q)
quiet_due step d (vidsrc_updated prm ∷ es) (q, qs) = ground (arith, q)
quiet_due step d (vidisp_updated full o ∷ es) (q, qs) = ground (arith, q)
