-- ===== src/Call/Handlers.antt =====
-- The handlers that the SIP session, the media and the timers call (jni/baresip/src/call.c).
use bare_sip_android.Prelude.{
  ℕ, Bool, true, false, not, ◌&&◌, Option, none, some, ltb, leb, ◌==◌, if◌then◌else◌,
}
use bare_sip_android.Call.State.{
  CallState, incoming, outgoing, ringing, early, established, ev_incoming, ev_ringing, ev_progress,
  ev_established, ev_closed, ev_transfer, Tone, ringback_wav, sdp_encode, sdp_decode,
  decode_multipart, sip_reply, sipevent_accept, mctrl_handle, mctrl_pfu, update_picture, play_file,
  M, pure, ◌>>=◌, ◌>>◌, ext, run, modify, get, attempt, when, void, set_state, drop_play, drop_not,
  drop_sub, call_event,
}
use bare_sip_android.Call.Media.{
  call_stream_start, call_stream_stop, update_media, translate_errorcode, play_tone,
}
use bare_sip_android.Call.Control.{
  Ctype, application_sdp, media_control, Msg, send_invite, call_modify, call_notify_sipfrag,
}

unfoldable pub invite_timeout : M (Unit {0})
invite_timeout = call_event ev_closed

abbrev resume_in : CallState → M (Unit {0})
resume_in outgoing = void send_invite
resume_in incoming = call_event ev_incoming
resume_in _ = pure tt

unfoldable pub mnat_handler : ℕ → ℕ → M (Unit {0})
mnat_handler err scode = do
  c ← get
  if not (err == 0)
      then call_event ev_closed
      else if not (scode == 0)
      then call_event ev_closed
      else if not c.mnat_wait
      then void call_modify
      else do modify λ c. record c { mnat_wait = false }; resume_in c.state

unfoldable pub audio_error_handler : M (Unit {0})
audio_error_handler = do call_stream_stop; call_event ev_closed

-- `left` is the size of the body of the message
unfoldable pub sipsess_offer_handler : ℕ → M ℕ
sipsess_offer_handler left =
    let got_offer = ltb 0 left in
    attempt (if got_offer then attempt (ext (sdp_decode true)) update_media else pure 0)
      (ext (sdp_encode (not got_offer)))

unfoldable pub sipsess_answer_handler : M ℕ
sipsess_answer_handler = do
  run decode_multipart
  attempt (ext (sdp_decode false)) (attempt update_media (pure 0))

abbrev pub is_established : CallState → Bool
is_established established = true
is_established _ = false

unfoldable pub establish : M (Unit {0})
establish = do set_state established; drop_play; call_stream_start true

-- a call that was made for a transfer tells the transferor, who will hang up
unfoldable pub tell_established : M (Unit {0})
tell_established = do
  call_event ev_established
  c ← get
  when c.notif (void (call_notify_sipfrag 200))

unfoldable pub sipsess_estab_handler : M (Unit {0})
sipsess_estab_handler = do
  c ← get
  when (not (is_established c.state)) do establish; tell_established

unfoldable pub call_handle_info_req : M (Unit {0})
call_handle_info_req = do
  err ← ext mctrl_handle
  when (err == 0) do pfu ← ext mctrl_pfu; when (not (pfu == 0)) (run update_picture)

abbrev is_media_control : Ctype → Bool
is_media_control media_control = true
is_media_control _ = false

abbrev is_sdp : Ctype → Bool
is_sdp application_sdp = true
is_sdp _ = false

unfoldable pub sipsess_info_handler : Msg → M (Unit {0})
sipsess_info_handler msg =
    if is_media_control msg.ctype
    then (do call_handle_info_req; run (sip_reply 200))
    else run (sip_reply 488)

unfoldable pub sipnot_close_handler : M (Unit {0})
sipnot_close_handler = drop_not

-- the flag tells whether the message has a Refer-To header
unfoldable pub sipsess_refer_handler : Bool → M (Unit {0})
sipsess_refer_handler refer_to = if not refer_to then run (sip_reply 400) else do
  drop_not
  err ← ext sipevent_accept
  modify λ c. record c { notif = err == 0 }
  when (err == 0) do void (call_notify_sipfrag 100); call_event ev_transfer

abbrev play_error : Option Tone → M (Unit {0})
play_error none = pure tt
play_error (some tone) = run (play_file tone)

abbrev notify_end : ℕ → M (Unit {0})
notify_end scode = do c ← get; when c.notif (void (call_notify_sipfrag scode))

abbrev report_status : Option ℕ → M (Unit {0})
report_status none = pure tt
report_status (some scode) = do play_error (translate_errorcode scode); notify_end scode

-- the part of sipsess_close_handler before the streams are stopped
unfoldable pub report_close : ℕ → Option ℕ → M (Unit {0})
report_close err msg = if not (err == 0) then notify_end 500 else report_status msg

-- the error, or the status code of the message that ended the session, if there is one
unfoldable pub sipsess_close_handler : ℕ → Option ℕ → M (Unit {0})
sipsess_close_handler err msg = do report_close err msg; call_stream_stop; call_event ev_closed

-- whether the message has media: its body, or a part of it, is an SDP answer
abbrev decode_sdp_part : M Bool
decode_sdp_part = do
  e ← ext decode_multipart
  if not (e == 0) then pure false else do e' ← ext (sdp_decode false); pure (e' == 0)

unfoldable pub has_media : Msg → M Bool
has_media msg =
    if is_sdp msg.ctype && ltb 0 msg.left
    then (do e ← ext (sdp_decode false); if e == 0 then pure true else decode_sdp_part)
    else decode_sdp_part

unfoldable pub progr_state : ℕ → CallState → CallState
progr_state scode st = if scode == 180 then ringing else if scode == 183 then early else st

-- the media streams and the ringback tone are reset each time
unfoldable pub progr_reset : Bool → ℕ → M (Unit {0})
progr_reset media scode = do
  modify λ c. record c { state = progr_state scode c.state }
  call_event (if media then ev_progress else ev_ringing)
  drop_play
  call_stream_stop

unfoldable pub progr_media : Bool → M (Unit {0})
progr_media true = call_stream_start false
progr_media false = void (play_tone ringback_wav)

unfoldable pub sipsess_progr_handler : Msg → M (Unit {0})
sipsess_progr_handler msg =
    when (ltb 100 msg.scode)
      do media ← has_media msg; progr_reset media msg.scode; progr_media media

-- The body is a sipfrag if `sipfrag` is its status code.
unfoldable pub sipsub_notify_handler : Option ℕ → M (Unit {0})
sipsub_notify_handler none = run (sip_reply 400)
sipsub_notify_handler (some sc) = do
  run (sip_reply 200)
  when (leb 200 sc && ltb sc 300) (call_event ev_closed)

unfoldable pub sipsub_close_handler : M (Unit {0})
sipsub_close_handler = drop_sub

-- the destructor of play.c: a tone that has ended, or that is closed with all others, clears the
-- pointer of the call
unfoldable pub play_ended : M (Unit {0})
play_ended = modify λ c. record c { play = false }
