-- ===== src/Agent/Events.antt =====
-- What a user agent does on the events of a call (jni/baresip/src/ua.c: call_event_handler,
-- ua_call_alloc, alert_start, alert_stop, call_stat, menu_set_incall).
use bare_sip_android.Prelude.{
  Bool, true, false, not, ◌&&◌, ◌||◌, Option, none, some, List, [], ◌∷◌, ◌++◌, ltb, ◌==◌,
  if◌then◌else◌, Bytes,
}
use bare_sip_android.Call.State.{
  CallEvent, ev_incoming, ev_ringing, ev_progress, ev_established, ev_closed, ev_transfer,
  other_wav, Call,
}
use bare_sip_android.Call.Alloc.{AllocPrm, call_alloc}
use bare_sip_android.Call.Control.{
  call_connect, call_progress, call_answer, call_ringtone, call_notify_sipfrag,
}
use bare_sip_android.Agent.State.{
  Answermode, manual, early_media, auto_answer, UaEvent, ue_incoming, ue_ringing, ue_progress,
  ue_established, ue_closed, Agent, Focus, UaEnv, count_calls,
}

abbrev pub ua_event : UaEvent → Agent → Agent
ua_event ev a = record a { events = ev ∷ a.events }

-- `mem_deref(call)`
abbrev pub release : Call → Agent → Agent
release c a = record a { released = c ∷ a.released }

abbrev pub alert_start : Agent → Agent
alert_start a = record a { tmr_alert = true }

abbrev pub alert_stop : Agent → Agent
alert_stop a = record a { tmr_alert = false }

-- with a current call, which there is when it is called
abbrev pub call_stat : Agent → Agent
call_stat a = if a.statmode_off then a else if not a.iscur then a else record a { tmr_stat = true }

-- registering lasts, and takes memory the first time
abbrev pub menu_set_incall : UaEnv → Bool → Agent → Agent
menu_set_incall env incall a = record a { incall = incall && (a.incall || env.mem) }

-- an incoming call that waits for the user
abbrev ring : UaEnv → Focus → Call → Focus
ring env f c =
    let c' = (call_ringtone other_wav env.call c).1 in
    let waiting = ltb 1 (count_calls (record f { cur = some c })) in
    record f {
      cur = some c';
      agent = ua_event ue_incoming (if waiting then f.agent else alert_start f.agent);
    }

abbrev pub incoming_call : UaEnv → Focus → Call → Answermode → Focus
incoming_call env f c early_media = record f { cur = some (call_progress env.call c).1 }
incoming_call env f c auto_answer = record f { cur = some (call_answer 200 env.call c).1 }
incoming_call env f c manual = ring env f c

-- the parameters of a call to the target of a transfer, which inherits from the call
abbrev pub transfer_prm : Agent → Call → AllocPrm
transfer_prm a c = record a.prm {
  ua = true;
  eh = true;
  vidmode_off = false;
  msg_left = none;
  xcall_not = c.notif;
}

abbrev pub transfer_failed : UaEnv → Focus → Call → Focus
transfer_failed env f c = record f { cur = some (call_notify_sipfrag 500 env.call c).1 }

-- `paddr` is the target, `auri` its address
abbrev pub connect_target : UaEnv → Bytes → Bytes → Focus → Call → Option Call → Focus
connect_target env paddr auri f c none = transfer_failed env f c
connect_target env paddr auri f c (some call2) =
    let (err, call2') = call_connect paddr auri env.call call2 in
    if err == 0
    then record f { cur = some c; post = f.post ++ call2' ∷ [] }
    else transfer_failed env (record f { agent = release call2' f.agent }) c

unfoldable pub transfer_call : UaEnv → Bytes → Bytes → Focus → Call → Focus
transfer_call env paddr auri f c =
    connect_target env paddr auri f c (call_alloc env.call (transfer_prm f.agent c)).0

unfoldable pub event_case : UaEnv → Bytes → Bytes → Focus → Call → CallEvent → Focus
unfolding transfer_call
event_case env paddr auri f c ev_incoming = incoming_call env f c f.agent.answermode
event_case env paddr auri f c ev_ringing = record f { agent = ua_event ue_ringing f.agent }
event_case env paddr auri f c ev_progress = record f {
  agent = ua_event ue_progress (call_stat f.agent);
}
event_case env paddr auri f c ev_established = record f {
  agent = ua_event ue_established (call_stat (alert_stop f.agent));
}
event_case env paddr auri f c ev_closed = record f {
  cur = none;
  agent = release c (ua_event ue_closed (alert_stop f.agent));
}
event_case env paddr auri f c ev_transfer = transfer_call env paddr auri f c

abbrev pub handle_at : UaEnv → Bytes → Bytes → CallEvent → Focus → Option Call → Focus
handle_at env paddr auri ev f none = f
handle_at env paddr auri ev f (some c) =
    let g = event_case env paddr auri f c ev in
    record g { agent = menu_set_incall env (ltb 0 (count_calls g)) g.agent }

-- A call that was released raises no event.
unfoldable pub call_event_handler : UaEnv → Bytes → Bytes → CallEvent → Focus → Focus
unfolding event_case
call_event_handler env paddr auri ev f = handle_at env paddr auri ev f f.cur

unfoldable pub handle_all : UaEnv → Bytes → Bytes → List CallEvent → Focus → Focus
handle_all env paddr auri [] f = f
handle_all env paddr auri (ev ∷ evs) f =
    handle_all env paddr auri evs (call_event_handler env paddr auri ev f)
