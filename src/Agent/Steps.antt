-- ===== src/Agent/Steps.antt =====
-- All that a user agent goes through with its calls (jni/baresip/src/ua.c), in any order.
use bare_sip_android.Prelude.{
  subst, sym, ℕ, ◌<◌, ◌≡◌, Bool, true, false, some, [], All, length, get_elem?, arith, Bytes,
}
use bare_sip_android.Call.State.{Call}
use bare_sip_android.Call.Control.{Msg}
use bare_sip_android.Call.Steps.{Input, Enabled}
use bare_sip_android.Call.Invariant.{Inv}
use bare_sip_android.Agent.State.{Ua, UaEnv}
use bare_sip_android.Agent.Operations.{
  call_input, ua_hangup, ua_answer, ConnectPrm, ua_connect, sipsess_conn_handler,
}
use bare_sip_android.Agent.Good.{Live, Good}
use bare_sip_android.Agent.Inputs.{call_input-Good}
use bare_sip_android.Agent.Commands.{
  ua_hangup-Good, ua_answer-Good, ua_connect-Good, sipsess_conn_handler-Good,
}

-- The environment may answer differently at each step. An input of the `n`th call is one that this
-- call can have.
pub data UaSteps : Ua → Ua → Type 0 where
  at_start : {ua : Ua} → UaSteps ua ua
  input :
      {ua ua' : Ua} (env : UaEnv) (paddr auri : Bytes) (n : ℕ) (i : Input)
      → UaSteps ua ua'
      → ((c : Call) → get_elem? ua'.calls n ≡ some c → Enabled i c)
      → UaSteps ua (call_input env paddr auri n i ua')
  hang_up : {ua ua' : Ua} (env : UaEnv) → UaSteps ua ua' → UaSteps ua (ua_hangup env ua')
  pick_up : {ua ua' : Ua} (env : UaEnv) → UaSteps ua ua' → UaSteps ua (ua_answer env ua')
  dial :
      {ua ua' : Ua} (env : UaEnv) (k : ConnectPrm)
      → UaSteps ua ua'
      → UaSteps ua (ua_connect env k ua').1
  invited :
      {ua ua' : Ua} (env : UaEnv) (known unsupported : Bool) (msg : Msg)
      → UaSteps ua ua'
      → UaSteps ua (sipsess_conn_handler env known unsupported msg ua')

UaSteps-Good : {ua ua' : Ua} → Good ua → UaSteps ua ua' → Good ua'
UaSteps-Good g at_start = g
UaSteps-Good g (input env paddr auri n i r e) =
    call_input-Good env paddr auri n i _ e (UaSteps-Good g r)
UaSteps-Good g (hang_up env r) = ua_hangup-Good env _ (UaSteps-Good g r)
UaSteps-Good g (pick_up env r) = ua_answer-Good env _ (UaSteps-Good g r)
UaSteps-Good g (dial env k r) = ua_connect-Good env k _ (UaSteps-Good g r)
UaSteps-Good g (invited env known unsupported msg r) =
    sipsess_conn_handler-Good env known unsupported msg _ (UaSteps-Good g r)

-- From a user agent without calls, after any inputs of its calls, in any order and whatever the
-- environment answers, with calls dialled, received, answered and hung up in between: no call is
-- listed of which the user agent was told that it is closed; the listed calls and those released
-- keep the invariant of a call, so that each sent at most one INVITE; and the commands for calls
-- are offered only while a call is listed.
pub UaSteps-calls :
    {ua ua' : Ua}
    → ua.calls ≡ []
    → ua.agent.released ≡ []
    → ua.agent.incall ≡ false
    → UaSteps ua ua'
    → All Live ua'.calls
      × (All Inv ua'.agent.released × (ua'.agent.incall ≡ true → 0 < length ua'.calls))
UaSteps-calls {ua} {ua'} c r i s =
    let g : Good ua' =
      UaSteps-Good
        (record {
          live = subst (All Live) (sym c) tt;
          released_kept = subst (All Inv) (sym r) tt;
          menu_calls = λ m. ground (arith, i, m);
        })
        s in
    (g.live, (g.released_kept, g.menu_calls))
