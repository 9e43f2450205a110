-- ===== src/Tests/Agents.antt =====
-- Examples for a user agent and its calls (jni/baresip/src/ua.c).
use bare_sip_android.Prelude.{◌<◌, ◌≡◌, refl, true, false, none, some, [], ◌∷◌, All, length, arith}
use bare_sip_android.Call.Alloc.{AllocPrm, call_alloc, alloc_call}
use bare_sip_android.Call.Control.{Msg, application_sdp, call_accept}
use bare_sip_android.Call.State.{call_event}
use bare_sip_android.Call.Handlers.{sipsess_close_handler, report_close}
use bare_sip_android.Call.Media.{call_stream_stop, translate_errorcode, play_tone}
use bare_sip_android.Call.Control.{call_ringtone}
use bare_sip_android.Agent.State.{new_events}
use bare_sip_android.Agent.Events.{call_event_handler}
use bare_sip_android.Call.Steps.{session_closed, step}
use bare_sip_android.Call.Invariant.{Inv}
use bare_sip_android.Agent.State.{manual, Ua, UaEnv, ue_incoming, ue_closed}
use bare_sip_android.Agent.Operations.{call_input, sipsess_conn_handler}
use bare_sip_android.Agent.Good.{Live}
use bare_sip_android.Agent.Limit.{sipsess_conn_handler-limit, Within}
use bare_sip_android.Agent.Steps.{UaSteps, at_start, input, invited, UaSteps-calls}

-- everything succeeds
abbrev fine : UaEnv
fine = record { call = λ log e. 0; mem = true }

abbrev prm : AllocPrm
prm = record {
  ua = true;
  local_name = [];
  local_uri = [];
  af = 2;
  vidmode_off = true;
  has_vidcodec = false;
  has_vidsrc = false;
  has_vidisp = false;
  mnat = false;
  mnat_updateh = false;
  msg_left = none;
  xcall_not = false;
  eh = true;
  rtp_bw_max = 1000000;
}

abbrev quiet_agent : Ua
quiet_agent = record {
  calls = [];
  agent = record {
    answermode = manual;
    prm = prm;
    tmr_alert = false;
    tmr_stat = false;
    statmode_off = false;
    iscur = true;
    incall = false;
    events = [];
    replies = [];
    released = [];
  };
}

abbrev invite : Msg
invite = record {
  scode = 0;
  left = 10;
  ctype = application_sdp;
  from_auri = b's' ∷ [];
  from_dname = none;
}

-- A call comes in, and its caller gives up.
abbrev rung : Ua
rung = sipsess_conn_handler fine true false invite quiet_agent

abbrev given_up : Ua
given_up = call_input fine [] [] 0 (session_closed 0 (some 487)) rung

ends : given_up.agent.events ≡ ue_closed ∷ ue_incoming ∷ []
unfolding call_input sipsess_conn_handler call_alloc alloc_call call_accept new_events call_event
    call_event_handler step sipsess_close_handler call_stream_stop report_close translate_errorcode
    call_ringtone play_tone
ends = refl

went : UaSteps quiet_agent given_up
went =
    input fine [] [] 0 (session_closed 0 (some 487)) (invited fine true false invite at_start)
      (λ c e. tt)

UaSteps-calls_example :
    All Live given_up.calls
    × (All Inv given_up.agent.released × (given_up.agent.incall ≡ true → 0 < length given_up.calls))
UaSteps-calls_example = UaSteps-calls refl refl refl went

sipsess_conn_handler-limit_example : Within quiet_agent rung
sipsess_conn_handler-limit_example =
    sipsess_conn_handler-limit fine true false invite quiet_agent (omega arith)
