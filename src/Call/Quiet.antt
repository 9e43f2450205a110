-- ===== src/Call/Quiet.antt =====
-- What the operations and handlers leave as it was that neither change the state of a call nor
-- start or close it (jni/baresip/src/call.c).
use bare_sip_android.Prelude.{ℕ, refl, Bool, true, false, Option, none, some, ◌∷◌, arith}
use bare_sip_android.Call.State.{
  play_ref, Tone, ringback_wav, sdp_encode, sdp_decode, decode_multipart, sipsess_progress, deref,
  stream_hold, Call, Env, call_event,
}
use bare_sip_android.Call.Control.{
  Msg, call_progress, call_answer, answer_call, call_hold, call_ringtone, call_reset_transp,
  call_notify_sipfrag, call_transfer,
}
use bare_sip_android.Call.Media.{translate_errorcode}
use bare_sip_android.Call.Handlers.{play_ended}
use bare_sip_android.Call.Handlers.{
  sipsess_offer_handler, sipsess_answer_handler, sipsess_info_handler, sipnot_close_handler,
  sipsess_refer_handler, sipsub_close_handler, call_handle_info_req, has_media, progr_media,
  tell_established, report_close,
}
use bare_sip_android.Call.Kept.{
  Held, Held-trans, call_stream_start-Kept, update_media-Kept, play_tone-Kept, call_modify-Held,
  for_each-Kept,
}

pub progress-Held : (env : Env) (c : Call) → Held c (call_progress env c).1
unfolding call_progress
progress-Held env c = ground (
  arith,
  (call_stream_start-Kept false env
      (record c { log = sipsess_progress ∷ sdp_encode false ∷ c.log })).held,
)

pub answer-Held : (scode : ℕ) (env : Env) (c : Call) → Held c (call_answer scode env c).1
unfolding call_answer answer_call
answer-Held scode env c =
    ground (
      arith,
      (update_media-Kept env (record c { play = false; log = deref play_ref ∷ c.log })).held,
    )

pub hold-Held : (on : Bool) (env : Env) (c : Call) → Held c (call_hold on env c).1
unfolding call_hold
hold-Held on env c =
    let streams = (for_each-Kept (stream_hold on) c.streaml env c (λ s. refl)).held in
    ground (arith, Held-trans streams (call_modify-Held env _))

pub transfer-Held : (env : Env) (c : Call) → Held c (call_transfer env c).1
unfolding call_transfer
transfer-Held env c = ground arith

pub offer-Held : (left : ℕ) (env : Env) (c : Call) → Held c (sipsess_offer_handler left env c).1
unfolding sipsess_offer_handler
offer-Held left env c =
    ground (arith, (update_media-Kept env (record c { log = sdp_decode true ∷ c.log })).held)

pub answered-Held : (env : Env) (c : Call) → Held c (sipsess_answer_handler env c).1
unfolding sipsess_answer_handler
answered-Held env c = ground (
  arith,
  (update_media-Kept env (record c { log = sdp_decode false ∷ decode_multipart ∷ c.log })).held,
)

pub tell_established-Held : (env : Env) (c : Call) → Held c (tell_established env c).1
unfolding tell_established call_event call_notify_sipfrag
tell_established-Held env c = ground arith

pub info-Held : (msg : Msg) (env : Env) (c : Call) → Held c (sipsess_info_handler msg env c).1
unfolding sipsess_info_handler call_handle_info_req
info-Held msg env c = ground arith

pub refer-Held :
    (refer_to : Bool) (env : Env) (c : Call) → Held c (sipsess_refer_handler refer_to env c).1
unfolding sipsess_refer_handler call_event call_notify_sipfrag
refer-Held refer_to env c = ground arith

pub report_close-Held :
    (err : ℕ) (msg : Option ℕ) (env : Env) (c : Call) → Held c (report_close err msg env c).1
unfolding report_close call_notify_sipfrag translate_errorcode
report_close-Held err none env c = ground arith
report_close-Held err (some scode) env c = ground arith

pub has_media-Held : (msg : Msg) (env : Env) (c : Call) → Held c (has_media msg env c).1
unfolding has_media
has_media-Held msg env c = ground arith

pub progr_media-Held : (media : Bool) (env : Env) (c : Call) → Held c (progr_media media env c).1
unfolding progr_media
progr_media-Held true env c = (call_stream_start-Kept false env c).held
progr_media-Held false env c = (play_tone-Kept ringback_wav env c).held

pub ringtone-Held : (tone : Tone) (env : Env) (c : Call) → Held c (call_ringtone tone env c).1
unfolding call_ringtone
ringtone-Held tone env c = (play_tone-Kept tone env c).held

pub reset_transp-Held : (env : Env) (c : Call) → Held c (call_reset_transp env c).1
unfolding call_reset_transp
reset_transp-Held env c = Held-trans (ground arith) (call_modify-Held env _)

pub notify_closed-Held : (env : Env) (c : Call) → Held c (sipnot_close_handler env c).1
unfolding sipnot_close_handler
notify_closed-Held env c = ground arith

pub transfer_closed-Held : (env : Env) (c : Call) → Held c (sipsub_close_handler env c).1
unfolding sipsub_close_handler
transfer_closed-Held env c = ground arith

pub play_ended-Held : (env : Env) (c : Call) → Held c (play_ended env c).1
unfolding play_ended
play_ended-Held env c = ground arith
