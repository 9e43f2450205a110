-- ===== src/Agent/State.antt =====
-- A user agent, as far as its calls are concerned (jni/baresip/src/ua.c, struct ua). The timers are
-- flags that they run. What the agent tells the application, what it answers without a call, and
-- the calls that it has released are lists, newest first.
use bare_sip_android.Prelude.{
  ℕ, zero, suc, ◌+◌, ◌-◌, Bool, Option, none, some, List, [], ◌∷◌, ◌++◌, length,
}
use bare_sip_android.Call.State.{CallEvent, Effect, event, Call, Env}
use bare_sip_android.Call.Alloc.{AllocPrm}

pub data Answermode : Type 0 where
  manual early_media auto_answer : Answermode

pub data UaEvent : Type 0 where
  ue_incoming ue_ringing ue_progress ue_established ue_closed : UaEvent

-- all but the calls; `prm` is what ua_call_alloc hands to call_alloc
pub record Agent : Type 0 where
  pub answermode : Answermode
  pub prm : AllocPrm
  pub tmr_alert : Bool
  pub tmr_stat : Bool
  pub statmode_off : Bool
  pub iscur : Bool
  pub incall : Bool  -- the commands for calls are registered
  pub events : List UaEvent
  pub replies : List ℕ
  pub released : List Call  -- as they were when they were released

pub record Ua : Type 0 where
  pub calls : List Call
  pub agent : Agent

-- A user agent at one of its calls, or where that call was.
pub record Focus : Type 0 where
  pub pre : List Call
  pub cur : Option Call
  pub post : List Call
  pub agent : Agent

-- The answers of the environment of a call, and memory for registering commands.
pub record UaEnv : Type 0 where
  pub call : Env
  pub mem : Bool

abbrev pub call_list : Option Call → List Call
call_list none = []
call_list (some c) = c ∷ []

abbrev pub unfocus : Focus → Ua
unfocus f = record { calls = f.pre ++ call_list f.cur ++ f.post; agent = f.agent }

-- list_count(&ua->calls)
abbrev pub count_calls : Focus → ℕ
count_calls f = length f.pre + length (call_list f.cur) + length f.post

abbrev pub raised : Effect → List CallEvent
raised (event ev) = ev ∷ []
raised _ = []

-- the events among the newest `n` effects of a log, oldest first, in front of `evs`
unfoldable pub new_events : ℕ → List Effect → List CallEvent → List CallEvent
new_events zero l evs = evs
new_events (suc n) [] evs = evs
new_events (suc n) (e ∷ l) evs = new_events n l (raised e ++ evs)

abbrev pub events_since : Call → Call → List CallEvent
events_since c d = new_events (length d.log - length c.log) d.log []
