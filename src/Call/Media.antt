-- ===== src/Call/Media.antt =====
-- The media streams of a call (jni/baresip/src/call.c): starting, stopping and updating them. The
-- build has USE_VIDEO.
use bare_sip_android.Prelude.{
  ℕ, ◌+◌, ◌-◌, ◌/◌, ◌%◌, ◌^◌, bit_or, Bool, false, not, ◌&&◌, ◌||◌, Option, none, some, List, [],
  ◌∷◌, ◌==◌, if◌then◌else◌, ealready,
}
use bare_sip_android.Call.State.{
  Tone, notfound_wav, busy_wav, error_wav, now, audio_rformat, audio_codec, audio_encoder_set,
  audio_decoder_set, audio_start, audio_stop, video_rformat, video_encoder_set, video_decoder_set,
  video_start, video_stop, audio_attr_decode, video_attr_decode, mnat_update, stream_update,
  stream_reset, stream_keepalive, tmr_cancel, play_file, Call, M, pure, ◌>>=◌, ◌>>◌, ext, run,
  modify, get, when, for_each,
}

-- the audio part of call_stream_start; its errors are only printed
unfoldable pub start_audio : M (Unit {0})
start_audio = do
  sc ← ext audio_rformat
  when (not (sc == 0)) do
    ac ← ext audio_codec
    when (not (ac == 0)) do
      e ← ext audio_encoder_set
      e' ← ext audio_decoder_set
      when (bit_or e e' == 0) (run audio_start)

unfoldable pub start_video : M (Unit {0})
start_video = do
  sc ← ext video_rformat
  when (not (sc == 0)) do
    e ← ext video_encoder_set
    e' ← ext video_decoder_set
    when (bit_or e e' == 0) (run video_start)

-- the loop over the streams in call_stream_start
unfoldable pub restart_streams : List ℕ → M (Unit {0})
restart_streams [] env c = (tt, c)
restart_streams (s ∷ ss) env c =
    restart_streams ss env (record c { log = stream_keepalive s ∷ stream_reset s ∷ c.log })

unfoldable pub call_stream_start : Bool → M (Unit {0})
call_stream_start active = do
  start_audio
  start_video
  when active do
    run tmr_cancel
    modify λ c. record c { tmr_inv = false }
    t ← ext now
    modify λ c. record c { time_start = t }
    c ← get
    restart_streams c.streaml

unfoldable pub call_stream_stop : M (Unit {0})
call_stream_stop = do
  t ← ext now
  modify λ c. record c { time_stop = t }
  run audio_stop
  run video_stop
  run tmr_cancel
  modify λ c. record c { tmr_inv = false }

unfoldable pub decode_attrs : M (Unit {0})
decode_attrs = do run audio_attr_decode; c ← get; when c.video (run video_attr_decode)

unfoldable pub update_mnat : M ℕ
update_mnat = do c ← get; if c.mnat && c.mnat_updateh && c.mnats then ext mnat_update else pure 0

unfoldable pub update_media : M ℕ
update_media = do decode_attrs; c ← get; for_each stream_update c.streaml; update_mnat

-- the tone for the status code of a failed call; 487 has none
unfoldable pub translate_errorcode : ℕ → Option Tone
translate_errorcode scode =
    if scode == 404
    then some notfound_wav
    else if scode == 486
    then some busy_wav
    else if scode == 487
    then none
    else some error_wav

-- play_file of play.c with `&call->play`: a player that is set is not replaced
unfoldable pub play_tone : Tone → M ℕ
play_tone tone = do
  c ← get
  if c.play
      then pure ealready
      else do e ← ext (play_file tone); modify λ c. record c { play = c.play || e == 0 }; pure e

-- call_duration; `t` is the present time, and a time_t difference is cut to 32 bits
unfoldable pub call_duration : ℕ → Call → ℕ
call_duration t c = if c.time_start == 0 then 0 else (t + 2 ^ 32 - c.time_start % 2 ^ 32) % 2 ^ 32

-- hours, minutes and seconds, as print_duration prints them
unfoldable pub print_duration : ℕ → ℕ × ℕ × ℕ
print_duration dur = (dur / 60 / 60, dur / 60 % 60, dur % 60 % 60)
