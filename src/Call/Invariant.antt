-- ===== src/Call/Invariant.antt =====
-- What holds of a call at all times (jni/baresip/src/call.c): the timer of an incoming call, its
-- session, and the INVITE request of an outgoing one.
use bare_sip_android.Prelude.{ℕ, ◌≤◌, ◌≡◌, Bool, true, false, Option, none, some, ◌∷◌, arith, Bytes}
use bare_sip_android.Call.State.{
  idle, incoming, established, play_ref, deref, Call, Env, call_event,
}
use bare_sip_android.Call.Control.{Msg, send_invite, call_connect, call_hangup, call_accept}
use bare_sip_android.Call.Media.{call_stream_stop}
use bare_sip_android.Call.Handlers.{
  invite_timeout, mnat_handler, audio_error_handler, sipsess_estab_handler, sipsess_close_handler,
  sipsess_progr_handler, sipsub_notify_handler, has_media, progr_state, progr_reset, establish,
}
use bare_sip_android.Call.Kept.{
  invites, Held, call_stream_start-Kept, call_stream_start-timer, call_notify_sipfrag-Kept,
  call_modify-Held,
}
use bare_sip_android.Call.Quiet.{play_ended-Held}
use bare_sip_android.Call.Steps.{tone_ended}
use bare_sip_android.Call.Steps.{
  Input, connect, accept, modifies, hangup, progress, answer, hold, ringtone, reset_transp,
  notify_sipfrag, transfer, timeout, mnat_done, audio_error, offered, answered, estab, info,
  notify_closed, refer, session_closed, progressed, transfer_notified, transfer_closed, step,
  Enabled, Steps, start, next,
}
use bare_sip_android.Call.Quiet.{
  progress-Held, answer-Held, hold-Held, transfer-Held, offer-Held, answered-Held,
  tell_established-Held, info-Held, refer-Held, report_close-Held, has_media-Held, progr_media-Held,
  ringtone-Held, reset_transp-Held, notify_closed-Held, transfer_closed-Held,
}

pub record Inv (c : Call) : Type 0 where
  pub timer_incoming : c.tmr_inv ≡ true → c.state ≡ incoming
  pub incoming_sess : c.state ≡ incoming → c.sess ≡ true
  pub idle_unsent : c.state ≡ idle → invites c.log ≡ 0
  pub wait_unsent : c.mnat ≡ true → c.mnat_wait ≡ true → invites c.log ≡ 0
  pub sent_once : invites c.log ≤ 1

pub Held-Inv : {c d : Call} → Held c d → Inv c → Inv d
Held-Inv h v = ground arith

pub connect-Inv :
    (paddr auri : Bytes) (env : Env) (c : Call)
    → c.state ≡ idle
    → Inv c
    → Inv (call_connect paddr auri env c).1
unfolding call_connect send_invite
connect-Inv paddr auri env c s v = ground arith

pub accept-Inv :
    (msg : Msg) (env : Env) (c : Call) → c.state ≡ idle → Inv c → Inv (call_accept msg env c).1
unfolding call_accept call_event
accept-Inv msg env c s v = ground arith

pub hangup-Inv : (env : Env) (c : Call) → Inv c → Inv (call_hangup env c).1
unfolding call_hangup call_stream_stop
hangup-Inv env c v = ground arith

mnat_handler-Inv :
    (err scode : ℕ) (env : Env) (c : Call)
    → c.mnat ≡ true
    → Inv c
    → Inv (mnat_handler err scode env c).1
unfolding mnat_handler send_invite call_event
mnat_handler-Inv err scode env c m v = ground (arith, Held-Inv (call_modify-Held env c) v)

audio_error-Inv : (env : Env) (c : Call) → Inv c → Inv (audio_error_handler env c).1
unfolding audio_error_handler call_stream_stop call_event
audio_error-Inv env c v = ground arith

establish-Inv : (env : Env) (c : Call) → Inv c → Inv (establish env c).1
unfolding establish
establish-Inv env c v =
    let begun : Call = record c {
      state = established;
      play = false;
      log = deref play_ref ∷ c.log;
    } in
    ground (arith, (call_stream_start-Kept true env begun).held, call_stream_start-timer env begun)

estab-Inv : (env : Env) (c : Call) → Inv c → Inv (sipsess_estab_handler env c).1
unfolding sipsess_estab_handler
estab-Inv env c v = ground (arith, Held-Inv (tell_established-Held env _) (establish-Inv env c v))

closed-Inv :
    (err : ℕ) (msg : Option ℕ) (env : Env) (c : Call)
    → Inv c
    → Inv (sipsess_close_handler err msg env c).1
unfolding sipsess_close_handler audio_error_handler
closed-Inv err msg env c v = audio_error-Inv env _ (Held-Inv (report_close-Held err msg env c) v)

progr_reset-Inv :
    (media : Bool) (scode : ℕ) (env : Env) (c : Call)
    → Inv c
    → Inv (progr_reset media scode env c).1
unfolding progr_reset progr_state call_event call_stream_stop
progr_reset-Inv media scode env c v = ground arith

progr-Inv : (msg : Msg) (env : Env) (c : Call) → Inv c → Inv (sipsess_progr_handler msg env c).1
unfolding sipsess_progr_handler
progr-Inv msg env c v =
    let media = (has_media msg env c).0 in
    let reset = progr_reset-Inv media msg.scode env _ (Held-Inv (has_media-Held msg env c) v) in
    ground (arith, Held-Inv (progr_media-Held media env _) reset)

timeout-Inv : (env : Env) (c : Call) → Inv c → Inv (invite_timeout env c).1
unfolding invite_timeout call_event
timeout-Inv env c v = ground arith

transfer_notified-Inv :
    (sipfrag : Option ℕ) (env : Env) (c : Call)
    → Inv c
    → Inv (sipsub_notify_handler sipfrag env c).1
unfolding sipsub_notify_handler call_event
transfer_notified-Inv none env c v = ground arith
transfer_notified-Inv (some sc) env c v = ground arith

-- Every input that can come keeps the invariant, whatever the environment answers.
pub step-Inv : (i : Input) (env : Env) (c : Call) → Enabled i c → Inv c → Inv (step i env c)
unfolding step
step-Inv (connect paddr auri) env c s v = connect-Inv paddr auri env c s v
step-Inv (accept msg) env c s v = accept-Inv msg env c s v
step-Inv modifies env c s v = Held-Inv (call_modify-Held env c) v
step-Inv hangup env c s v = hangup-Inv env c v
step-Inv progress env c s v = Held-Inv (progress-Held env c) v
step-Inv (answer scode) env c s v = Held-Inv (answer-Held scode env c) v
step-Inv (hold on) env c s v = Held-Inv (hold-Held on env c) v
step-Inv (ringtone tone) env c s v = Held-Inv (ringtone-Held tone env c) v
step-Inv reset_transp env c s v = Held-Inv (reset_transp-Held env c) v
step-Inv (notify_sipfrag scode) env c s v = Held-Inv (call_notify_sipfrag-Kept scode env c).held v
step-Inv transfer env c s v = Held-Inv (transfer-Held env c) v
step-Inv timeout env c s v = timeout-Inv env c v
step-Inv (mnat_done err scode) env c s v = mnat_handler-Inv err scode env c s v
step-Inv audio_error env c s v = audio_error-Inv env c v
step-Inv (offered left) env c s v = Held-Inv (offer-Held left env c) v
step-Inv answered env c s v = Held-Inv (answered-Held env c) v
step-Inv estab env c s v = estab-Inv env c v
step-Inv (info msg) env c s v = Held-Inv (info-Held msg env c) v
step-Inv notify_closed env c s v = Held-Inv (notify_closed-Held env c) v
step-Inv (refer refer_to) env c s v = Held-Inv (refer-Held refer_to env c) v
step-Inv (session_closed err msg) env c s v = closed-Inv err msg env c v
step-Inv (progressed msg) env c s v = progr-Inv msg env c v
step-Inv (transfer_notified sipfrag) env c s v = transfer_notified-Inv sipfrag env c v
step-Inv transfer_closed env c s v = Held-Inv (transfer_closed-Held env c) v
step-Inv tone_ended env c s v = Held-Inv (play_ended-Held env c) v

pub Steps-Inv : {c d : Call} → Inv c → Steps c d → Inv d
Steps-Inv v start = v
Steps-Inv v (next i env r e) = step-Inv i env _ e (Steps-Inv v r)
