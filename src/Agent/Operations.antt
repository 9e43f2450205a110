-- ===== src/Agent/Operations.antt =====
-- The operations of a user agent on its calls (jni/baresip/src/ua.c: current_call, ua_hangup,
-- ua_answer, ua_connect, sipsess_conn_handler), and an input of one of its calls.
--
-- The events of a call that lead back to it, incoming and transfer, are the last thing that it
-- does; the others do not touch it. So all of them are handled when the call has returned.
use bare_sip_android.Prelude.{
  ℕ, zero, suc, ◌+◌, Bool, true, false, not, Option, none, some, List, [], ◌∷◌, ◌++◌, length, ltb,
  ◌==◌, if◌then◌else◌, Bytes,
}
use bare_sip_android.Call.State.{Call}
use bare_sip_android.Call.Alloc.{AllocPrm, call_alloc}
use bare_sip_android.Call.Control.{Msg, call_connect, call_accept, call_answer, call_hangup}
use bare_sip_android.Call.Steps.{Input, step}
use bare_sip_android.Agent.State.{Agent, Ua, Focus, UaEnv, unfocus, events_since}
use bare_sip_android.Agent.Events.{handle_all, menu_set_incall, release}

abbrev pub max_calls : ℕ
max_calls = 4

-- the call before and after an input, in its place
unfoldable pub deliver : UaEnv → Bytes → Bytes → Focus → Call → Call → Ua
unfolding handle_all
deliver env paddr auri f c d =
    unfocus (handle_all env paddr auri (events_since c d) (record f { cur = some d }))

-- a call by its place in the list
unfoldable pub focus : List Call → ℕ → List Call → Agent → Option (Focus × Call)
focus pre n [] a = none
focus pre zero (c ∷ post) a = some (record { pre = pre; cur = some c; post = post; agent = a }, c)
focus pre (suc n) (c ∷ post) a = focus (pre ++ c ∷ []) n post a

abbrev pub input_at : UaEnv → Bytes → Bytes → Input → Ua → Option (Focus × Call) → Ua
input_at env paddr auri i ua none = ua
input_at env paddr auri i ua (some (f, c)) = deliver env paddr auri f c (step i env.call c)

-- The session, the media or a timer of the `n`th call has an input for it.
unfoldable pub call_input : UaEnv → Bytes → Bytes → ℕ → Input → Ua → Ua
unfolding deliver focus
call_input env paddr auri n i ua = input_at env paddr auri i ua (focus [] n ua.calls ua.agent)

-- the call that was added last, and those before it
unfoldable pub current_call : List Call → List Call → Option (List Call × Call)
current_call pre [] = none
current_call pre (c ∷ []) = some (pre, c)
current_call pre (c ∷ d ∷ calls) = current_call (pre ++ c ∷ []) (d ∷ calls)

-- The call is hung up and released.
abbrev pub hangup_current : UaEnv → Ua → Option (List Call × Call) → Ua
hangup_current env ua none = ua
hangup_current env ua (some (pre, c)) = record {
  calls = pre;
  agent = menu_set_incall env (ltb 0 (length pre)) (release (call_hangup env.call c).1 ua.agent);
}

unfoldable pub ua_hangup : UaEnv → Ua → Ua
unfolding current_call
ua_hangup env ua = hangup_current env ua (current_call [] ua.calls)

abbrev pub answer_current : UaEnv → Ua → Option (List Call × Call) → Ua
answer_current env ua none = ua
answer_current env ua (some (pre, c)) = record ua {
  calls = pre ++ (call_answer 200 env.call c).1 ∷ [];
}

unfoldable pub ua_answer : UaEnv → Ua → Ua
unfolding current_call
ua_answer env ua = answer_current env ua (current_call [] ua.calls)

-- What the caller of ua_connect gives, with the error of writing the address to the buffer; `mnat`
-- and `mnat_updateh` are those of the call.
pub record ConnectPrm : Type 0 where
  pub dial_err : ℕ
  pub paddr : Bytes
  pub auri : Bytes
  pub vidmode_off : Bool
  pub mnat : Bool
  pub mnat_updateh : Bool

abbrev pub connect_prm : ConnectPrm → AllocPrm → AllocPrm
connect_prm k prm = record prm {
  ua = true;
  eh = true;
  vidmode_off = k.vidmode_off;
  mnat = k.mnat;
  mnat_updateh = k.mnat_updateh;
  msg_left = none;
  xcall_not = false;
}

abbrev pub connect_new : UaEnv → ConnectPrm → Ua → Option Call × ℕ → ℕ × Ua
connect_new env k ua (none, err) = (err, ua)
connect_new env k ua (some c, _) =
    let (err, c') = call_connect k.paddr k.auri env.call c in
    if err == 0
    then (0, record ua { calls = ua.calls ++ c' ∷ [] })
    else (err, record ua { agent = release c' ua.agent })

unfoldable pub ua_connect : UaEnv → ConnectPrm → Ua → ℕ × Ua
ua_connect env k ua =
    if not (k.dial_err == 0)
    then (k.dial_err, ua)
    else connect_new env k ua (call_alloc env.call (connect_prm k ua.agent.prm))

abbrev pub reply : ℕ → Ua → Ua
reply scode ua = record ua { agent = record ua.agent { replies = scode ∷ ua.agent.replies } }

abbrev pub invite_prm : Msg → AllocPrm → AllocPrm
invite_prm msg prm = record prm {
  ua = true;
  eh = true;
  vidmode_off = false;
  msg_left = some msg.left;
  xcall_not = false;
}

abbrev pub accept_new : UaEnv → Msg → Ua → Option Call → Ua
accept_new env msg ua none = reply 500 ua
accept_new env msg ua (some c) =
    let (err, c') = call_accept msg env.call c in
    let f : Focus = record { pre = ua.calls; cur = none; post = []; agent = ua.agent } in
    if err == 0
    then deliver env [] [] f c c'
    else reply 500 (record ua { agent = release c' ua.agent })

-- The flags tell whether the user agent was found for the request, and whether it requires an
-- extension that is not supported.
unfoldable pub sipsess_conn_handler : UaEnv → Bool → Bool → Msg → Ua → Ua
unfolding deliver
sipsess_conn_handler env known unsupported msg ua =
    if not known
    then reply 404 ua
    else if ltb max_calls (length ua.calls + 1)
    then reply 486 ua
    else if unsupported
    then reply 420 ua
    else accept_new env msg ua (call_alloc env.call (invite_prm msg ua.agent.prm)).0
