-- ===== src/Call/Growth.antt =====
-- The log of a call only grows (jni/baresip/src/call.c).
use bare_sip_android.Prelude.{length, ◌+◌}
use bare_sip_android.Prelude.{ℕ, ◌≤◌, Bool, true, false, Option, none, some, ◌∷◌, arith, Bytes}
use bare_sip_android.Call.State.{established, play_ref, deref, Call, Env, call_event}
use bare_sip_android.Call.Control.{Msg, send_invite, call_connect, call_hangup, call_accept}
use bare_sip_android.Call.Media.{call_stream_stop}
use bare_sip_android.Call.Handlers.{report_close, progr_media, tell_established}
use bare_sip_android.Call.Handlers.{
  invite_timeout, mnat_handler, audio_error_handler, sipsess_estab_handler, sipsess_close_handler,
  sipsess_progr_handler, sipsub_notify_handler, has_media, progr_state, progr_reset, establish,
}
use bare_sip_android.Call.Kept.{
  closes, Held, call_stream_start-Kept, call_notify_sipfrag-Kept, call_modify-Held,
}
use bare_sip_android.Call.Quiet.{play_ended-Held}
use bare_sip_android.Call.Steps.{tone_ended}
use bare_sip_android.Call.Steps.{
  Input, connect, accept, modifies, hangup, progress, answer, hold, ringtone, reset_transp,
  notify_sipfrag, transfer, timeout, mnat_done, audio_error, offered, answered, estab, info,
  notify_closed, refer, session_closed, progressed, transfer_notified, transfer_closed, step,
}
use bare_sip_android.Call.Quiet.{
  progress-Held, answer-Held, hold-Held, transfer-Held, offer-Held, answered-Held,
  tell_established-Held, info-Held, refer-Held, report_close-Held, has_media-Held, progr_media-Held,
  ringtone-Held, reset_transp-Held, notify_closed-Held, transfer_closed-Held,
}

abbrev pub Grows : Call → Call → Type 0
Grows c d = length c.log + closes d.log ≤ length d.log + closes c.log

Held-Grows : {c d : Call} → Held c d → Grows c d
Held-Grows h = omega (arith, h.log_grows, h.closes_held)

Grows-trans : (c d e : Call) → Grows c d → Grows d e → Grows c e
Grows-trans c d e p q = omega (arith, p, q)

connect-Grows :
    (paddr auri : Bytes) (env : Env) (c : Call) → Grows c (call_connect paddr auri env c).1
unfolding call_connect send_invite
connect-Grows paddr auri env c = ground arith

accept-Grows : (msg : Msg) (env : Env) (c : Call) → Grows c (call_accept msg env c).1
unfolding call_accept call_event
accept-Grows msg env c = ground arith

hangup-Grows : (env : Env) (c : Call) → Grows c (call_hangup env c).1
unfolding call_hangup call_stream_stop
hangup-Grows env c = ground arith

mnat_handler-Grows :
    (err scode : ℕ) (env : Env) (c : Call) → Grows c (mnat_handler err scode env c).1
unfolding mnat_handler send_invite call_event
mnat_handler-Grows err scode env c =
    ground (arith, (call_modify-Held env c).log_grows, (call_modify-Held env c).closes_held)

audio_error-Grows : (env : Env) (c : Call) → Grows c (audio_error_handler env c).1
unfolding audio_error_handler call_stream_stop call_event
audio_error-Grows env c = ground arith

establish-Grows : (env : Env) (c : Call) → Grows c (establish env c).1
unfolding establish
establish-Grows env c =
    let begun : Call = record c {
      state = established;
      play = false;
      log = deref play_ref ∷ c.log;
    } in
    let held = (call_stream_start-Kept true env begun).held in
    omega (arith, held.log_grows, held.closes_held)

estab-Grows : (env : Env) (c : Call) → Grows c (sipsess_estab_handler env c).1
unfolding sipsess_estab_handler
estab-Grows env c =
    let told = Held-Grows (tell_established-Held env (establish env c).1) in
    ground (
      arith,
      Grows-trans c (establish env c).1 (tell_established env (establish env c).1).1
          (establish-Grows env c) told,
    )

closed-Grows :
    (err : ℕ) (msg : Option ℕ) (env : Env) (c : Call)
    → Grows c (sipsess_close_handler err msg env c).1
unfolding sipsess_close_handler audio_error_handler
closed-Grows err msg env c =
    let d = (report_close err msg env c).1 in
    Grows-trans c d (audio_error_handler env d).1 (Held-Grows (report_close-Held err msg env c))
      (audio_error-Grows env d)

progr_reset-Grows :
    (media : Bool) (scode : ℕ) (env : Env) (c : Call) → Grows c (progr_reset media scode env c).1
unfolding progr_reset progr_state call_event call_stream_stop
progr_reset-Grows media scode env c = ground arith

progr-Grows : (msg : Msg) (env : Env) (c : Call) → Grows c (sipsess_progr_handler msg env c).1
unfolding sipsess_progr_handler
progr-Grows msg env c =
    let (media, d) = has_media msg env c in
    let e = (progr_reset media msg.scode env d).1 in
    let reset =
      Grows-trans c d e (Held-Grows (has_media-Held msg env c))
        (progr_reset-Grows media msg.scode env d) in
    ground (
      arith,
      Grows-trans c e (progr_media media env e).1 reset (Held-Grows (progr_media-Held media env e)),
    )

timeout-Grows : (env : Env) (c : Call) → Grows c (invite_timeout env c).1
unfolding invite_timeout call_event
timeout-Grows env c = ground arith

transfer_notified-Grows :
    (sipfrag : Option ℕ) (env : Env) (c : Call) → Grows c (sipsub_notify_handler sipfrag env c).1
unfolding sipsub_notify_handler call_event
transfer_notified-Grows none env c = ground arith
transfer_notified-Grows (some sc) env c = ground arith

-- each input adds at least as many effects as it tells the user agent that the call is closed
pub step-Grows : (i : Input) (env : Env) (c : Call) → Grows c (step i env c)
unfolding step
step-Grows (connect paddr auri) env c = connect-Grows paddr auri env c
step-Grows (accept msg) env c = accept-Grows msg env c
step-Grows modifies env c = Held-Grows (call_modify-Held env c)
step-Grows hangup env c = hangup-Grows env c
step-Grows progress env c = Held-Grows (progress-Held env c)
step-Grows (answer scode) env c = Held-Grows (answer-Held scode env c)
step-Grows (hold on) env c = Held-Grows (hold-Held on env c)
step-Grows (ringtone tone) env c = Held-Grows (ringtone-Held tone env c)
step-Grows reset_transp env c = Held-Grows (reset_transp-Held env c)
step-Grows (notify_sipfrag scode) env c = Held-Grows (call_notify_sipfrag-Kept scode env c).held
step-Grows transfer env c = Held-Grows (transfer-Held env c)
step-Grows timeout env c = timeout-Grows env c
step-Grows (mnat_done err scode) env c = mnat_handler-Grows err scode env c
step-Grows audio_error env c = audio_error-Grows env c
step-Grows (offered left) env c = Held-Grows (offer-Held left env c)
step-Grows answered env c = Held-Grows (answered-Held env c)
step-Grows estab env c = estab-Grows env c
step-Grows (info msg) env c = Held-Grows (info-Held msg env c)
step-Grows notify_closed env c = Held-Grows (notify_closed-Held env c)
step-Grows (refer refer_to) env c = Held-Grows (refer-Held refer_to env c)
step-Grows (session_closed err msg) env c = closed-Grows err msg env c
step-Grows (progressed msg) env c = progr-Grows msg env c
step-Grows (transfer_notified sipfrag) env c = transfer_notified-Grows sipfrag env c
step-Grows transfer_closed env c = Held-Grows (transfer_closed-Held env c)
step-Grows tone_ended env c = Held-Grows (play_ended-Held env c)
