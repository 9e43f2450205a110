-- ===== src/Call/Steps.antt =====
-- The inputs of a call and its steps (jni/baresip/src/call.c): every operation and handler that
-- changes the state of a call, in any order.
use bare_sip_android.Prelude.{ℕ, ◌≡◌, Bool, true, Option, Bytes}
use bare_sip_android.Call.State.{idle, Tone, Call, Env}
use bare_sip_android.Call.Control.{
  Msg, call_connect, call_modify, call_hangup, call_progress, call_answer, call_hold, call_ringtone,
  call_reset_transp, call_notify_sipfrag, call_transfer, call_accept,
}
use bare_sip_android.Call.Handlers.{play_ended}
use bare_sip_android.Call.Handlers.{
  invite_timeout, mnat_handler, audio_error_handler, sipsess_offer_handler, sipsess_answer_handler,
  sipsess_estab_handler, sipsess_info_handler, sipnot_close_handler, sipsess_refer_handler,
  sipsess_close_handler, sipsess_progr_handler, sipsub_notify_handler, sipsub_close_handler,
}

pub data Input : Type 0 where
  connect : Bytes → Bytes → Input
  accept : Msg → Input
  modifies : Input
  hangup : Input
  progress : Input
  answer : ℕ → Input
  hold : Bool → Input
  ringtone : Tone → Input
  reset_transp : Input
  notify_sipfrag : ℕ → Input
  transfer : Input
  timeout : Input
  mnat_done : ℕ → ℕ → Input
  audio_error : Input
  offered : ℕ → Input
  answered : Input
  estab : Input
  info : Msg → Input
  notify_closed : Input
  refer : Bool → Input
  session_closed : ℕ → Option ℕ → Input
  progressed : Msg → Input
  transfer_notified : Option ℕ → Input
  transfer_closed : Input
  tone_ended : Input

-- the state of the call after an input
unfoldable pub step : Input → Env → Call → Call
step (connect paddr auri) env c = (call_connect paddr auri env c).1
step (accept msg) env c = (call_accept msg env c).1
step modifies env c = (call_modify env c).1
step hangup env c = (call_hangup env c).1
step progress env c = (call_progress env c).1
step (answer scode) env c = (call_answer scode env c).1
step (hold on) env c = (call_hold on env c).1
step (ringtone tone) env c = (call_ringtone tone env c).1
step reset_transp env c = (call_reset_transp env c).1
step (notify_sipfrag scode) env c = (call_notify_sipfrag scode env c).1
step transfer env c = (call_transfer env c).1
step timeout env c = (invite_timeout env c).1
step (mnat_done err scode) env c = (mnat_handler err scode env c).1
step audio_error env c = (audio_error_handler env c).1
step (offered left) env c = (sipsess_offer_handler left env c).1
step answered env c = (sipsess_answer_handler env c).1
step estab env c = (sipsess_estab_handler env c).1
step (info msg) env c = (sipsess_info_handler msg env c).1
step notify_closed env c = (sipnot_close_handler env c).1
step (refer refer_to) env c = (sipsess_refer_handler refer_to env c).1
step (session_closed err msg) env c = (sipsess_close_handler err msg env c).1
step (progressed msg) env c = (sipsess_progr_handler msg env c).1
step (transfer_notified sipfrag) env c = (sipsub_notify_handler sipfrag env c).1
step transfer_closed env c = (sipsub_close_handler env c).1
step tone_ended env c = (play_ended env c).1

-- When an input can come: a call is connected or accepted once, by the user agent that made it; the
-- timer fires while it runs; a media NAT session reports if there is one.
abbrev pub Enabled : Input → Call → Type 0
Enabled (connect _ _) c = c.state ≡ idle
Enabled (accept _) c = c.state ≡ idle
Enabled timeout c = c.tmr_inv ≡ true
Enabled (mnat_done _ _) c = c.mnat ≡ true
Enabled _ c = Unit {0}

pub data Steps : Call → Call → Type 0 where
  start : {c : Call} → Steps c c
  next : {c d : Call} (i : Input) (env : Env) → Steps c d → Enabled i d → Steps c (step i env d)
