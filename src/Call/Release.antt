-- ===== src/Call/Release.antt =====
-- The release of a call (jni/baresip/src/call.c). The user agent releases the call object when it
-- is told that the call is closed (jni/baresip/src/ua.c, call_event_handler), so that nothing may
-- be done with the call afterwards.
use bare_sip_android.Prelude.{
  ℕ, ◌≡◌, inl, inr, ◌∙◌, Bool, true, false, Option, none, some, List, [], ◌∷◌, arith, ltb, Bytes,
  Bool-cases,
}
use bare_sip_android.Call.State.{established, play_ref, Effect, deref, Call, Env, call_event}
use bare_sip_android.Call.Control.{Msg, send_invite, call_connect, call_hangup, call_accept}
use bare_sip_android.Call.Media.{call_stream_stop}
use bare_sip_android.Call.Handlers.{
  is_established, invite_timeout, mnat_handler, audio_error_handler, sipsess_estab_handler,
  sipsess_close_handler, sipsess_progr_handler, sipsub_notify_handler, has_media, progr_reset,
  progr_media, establish, tell_established,
}
use bare_sip_android.Call.Kept.{
  closes, Held, call_stream_start-Kept, call_notify_sipfrag-Kept, call_modify-Held,
}
use bare_sip_android.Call.Quiet.{play_ended-Held}
use bare_sip_android.Call.Steps.{tone_ended}
use bare_sip_android.Call.Steps.{
  Input, connect, accept, modifies, hangup, progress, answer, hold, ringtone, reset_transp,
  notify_sipfrag, transfer, timeout, mnat_done, audio_error, offered, answered, estab, info,
  notify_closed, refer, session_closed, progressed, transfer_notified, transfer_closed, step,
}
use bare_sip_android.Call.Quiet.{
  progress-Held, answer-Held, hold-Held, transfer-Held, offer-Held, answered-Held,
  tell_established-Held, info-Held, refer-Held, report_close-Held, has_media-Held, progr_media-Held,
  ringtone-Held, reset_transp-Held, notify_closed-Held, transfer_closed-Held,
}

-- the effects before the last one
abbrev pub before_last : List Effect → List Effect
before_last [] = []
before_last (e ∷ l) = l

-- No effect before the last one told the user agent that the call is closed.
abbrev pub ClosesLast : Call → Type 0
ClosesLast c = closes (before_last c.log) ≡ 0

closes-before_last : (l : List Effect) → closes l ≡ 0 → closes (before_last l) ≡ 0
closes-before_last [] h = h
closes-before_last (e ∷ l) h = omega arith

Held-ClosesLast : {c d : Call} → Held c d → closes c.log ≡ 0 → ClosesLast d
Held-ClosesLast {d} h e = closes-before_last d.log (h.closes_held ∙ e)

connect-ClosesLast :
    (paddr auri : Bytes) (env : Env) (c : Call)
    → closes c.log ≡ 0
    → ClosesLast (call_connect paddr auri env c).1
unfolding call_connect send_invite
connect-ClosesLast paddr auri env c h = ground (arith, closes-before_last c.log h)

accept-ClosesLast :
    (msg : Msg) (env : Env) (c : Call) → closes c.log ≡ 0 → ClosesLast (call_accept msg env c).1
unfolding call_accept call_event
accept-ClosesLast msg env c h = ground (arith, closes-before_last c.log h)

hangup-ClosesLast : (env : Env) (c : Call) → closes c.log ≡ 0 → ClosesLast (call_hangup env c).1
unfolding call_hangup call_stream_stop
hangup-ClosesLast env c h = ground arith

mnat_handler-ClosesLast :
    (err scode : ℕ) (env : Env) (c : Call)
    → closes c.log ≡ 0
    → ClosesLast (mnat_handler err scode env c).1
unfolding mnat_handler send_invite call_event
mnat_handler-ClosesLast err scode env c h =
    ground (arith, closes-before_last c.log h, Held-ClosesLast (call_modify-Held env c) h)

audio_error-ClosesLast :
    (env : Env) (c : Call) → closes c.log ≡ 0 → ClosesLast (audio_error_handler env c).1
unfolding audio_error_handler call_stream_stop call_event
audio_error-ClosesLast env c h = ground arith

timeout-ClosesLast : (env : Env) (c : Call) → closes c.log ≡ 0 → ClosesLast (invite_timeout env c).1
unfolding invite_timeout call_event
timeout-ClosesLast env c h = ground (arith, closes-before_last c.log h)

establish-closes : (env : Env) (c : Call) → closes (establish env c).1.log ≡ closes c.log
unfolding establish
establish-closes env c =
    let begun : Call = record c {
      state = established;
      play = false;
      log = deref play_ref ∷ c.log;
    } in
    omega (arith, (call_stream_start-Kept true env begun).held.closes_held)

estab-ClosesLast :
    (env : Env) (c : Call) → closes c.log ≡ 0 → ClosesLast (sipsess_estab_handler env c).1
unfolding sipsess_estab_handler
estab-ClosesLast env c h =
    let told : ClosesLast (tell_established env (establish env c).1).1 =
      Held-ClosesLast (tell_established-Held env (establish env c).1)
        (establish-closes env c ∙ h) in
    elim (Bool-cases (is_established c.state)) [
      | inl e ↦ rw e (closes-before_last c.log h)
      | inr e ↦ rw e told
    ]

closed-ClosesLast :
    (err : ℕ) (msg : Option ℕ) (env : Env) (c : Call)
    → closes c.log ≡ 0
    → ClosesLast (sipsess_close_handler err msg env c).1
unfolding sipsess_close_handler audio_error_handler
closed-ClosesLast err msg env c h =
    audio_error-ClosesLast env _ ((report_close-Held err msg env c).closes_held ∙ h)

progr_reset-closes :
    (media : Bool) (scode : ℕ) (env : Env) (c : Call)
    → closes (progr_reset media scode env c).1.log ≡ closes c.log
unfolding progr_reset call_event call_stream_stop
progr_reset-closes media scode env c = ground arith

progr-ClosesLast :
    (msg : Msg) (env : Env) (c : Call)
    → closes c.log ≡ 0
    → ClosesLast (sipsess_progr_handler msg env c).1
unfolding sipsess_progr_handler
progr-ClosesLast msg env c h =
    let (media, d) = has_media msg env c in
    let d' = (progr_reset media msg.scode env d).1 in
    let reset : closes d'.log ≡ 0 =
      progr_reset-closes media msg.scode env d ∙ (has_media-Held msg env c).closes_held ∙ h in
    let shown : ClosesLast (progr_media media env d').1 =
      Held-ClosesLast (progr_media-Held media env d') reset in
    elim (Bool-cases (ltb 100 msg.scode)) [
      | inl e ↦ rw e shown
      | inr e ↦ rw e (closes-before_last c.log h)
    ]

transfer_notified-ClosesLast :
    (sipfrag : Option ℕ) (env : Env) (c : Call)
    → closes c.log ≡ 0
    → ClosesLast (sipsub_notify_handler sipfrag env c).1
unfolding sipsub_notify_handler call_event
transfer_notified-ClosesLast none env c h = ground arith
transfer_notified-ClosesLast (some sc) env c h = ground arith

-- Whatever a call does on an input, and whatever the environment answers: if the user agent was not
-- yet told that the call is closed, and so has not released it, then it is told so as the last
-- effect of the input or not at all.
pub step-ClosesLast :
    (i : Input) (env : Env) (c : Call) → closes c.log ≡ 0 → ClosesLast (step i env c)
unfolding step
step-ClosesLast (connect paddr auri) env c h = connect-ClosesLast paddr auri env c h
step-ClosesLast (accept msg) env c h = accept-ClosesLast msg env c h
step-ClosesLast modifies env c h = Held-ClosesLast (call_modify-Held env c) h
step-ClosesLast hangup env c h = hangup-ClosesLast env c h
step-ClosesLast progress env c h = Held-ClosesLast (progress-Held env c) h
step-ClosesLast (answer scode) env c h = Held-ClosesLast (answer-Held scode env c) h
step-ClosesLast (hold on) env c h = Held-ClosesLast (hold-Held on env c) h
step-ClosesLast (ringtone tone) env c h = Held-ClosesLast (ringtone-Held tone env c) h
step-ClosesLast reset_transp env c h = Held-ClosesLast (reset_transp-Held env c) h
step-ClosesLast (notify_sipfrag scode) env c h =
    Held-ClosesLast (call_notify_sipfrag-Kept scode env c).held h
step-ClosesLast transfer env c h = Held-ClosesLast (transfer-Held env c) h
step-ClosesLast timeout env c h = timeout-ClosesLast env c h
step-ClosesLast (mnat_done err scode) env c h = mnat_handler-ClosesLast err scode env c h
step-ClosesLast audio_error env c h = audio_error-ClosesLast env c h
step-ClosesLast (offered left) env c h = Held-ClosesLast (offer-Held left env c) h
step-ClosesLast answered env c h = Held-ClosesLast (answered-Held env c) h
step-ClosesLast estab env c h = estab-ClosesLast env c h
step-ClosesLast (info msg) env c h = Held-ClosesLast (info-Held msg env c) h
step-ClosesLast notify_closed env c h = Held-ClosesLast (notify_closed-Held env c) h
step-ClosesLast (refer refer_to) env c h = Held-ClosesLast (refer-Held refer_to env c) h
step-ClosesLast (session_closed err msg) env c h = closed-ClosesLast err msg env c h
step-ClosesLast (progressed msg) env c h = progr-ClosesLast msg env c h
step-ClosesLast (transfer_notified sipfrag) env c h = transfer_notified-ClosesLast sipfrag env c h
step-ClosesLast transfer_closed env c h = Held-ClosesLast (transfer_closed-Held env c) h
step-ClosesLast tone_ended env c h = Held-ClosesLast (play_ended-Held env c) h
