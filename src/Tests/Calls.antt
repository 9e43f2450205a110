-- ===== src/Tests/Calls.antt =====
-- Examples for call control (jni/baresip/src/call.c).
use bare_sip_android.Prelude.{◌≡◌, ◌≢◌, ◌⊎◌, refl, true, false, not, none, some, List, [], ◌∷◌}
use bare_sip_android.Call.State.{
  Call, Env, Effect, incoming, sdp_encode, sipsess_answer, deref, desc_ref,
}
use bare_sip_android.Call.Alloc.{AllocPrm, call_alloc, zeroed, alloc_call}
use bare_sip_android.Call.Control.{call_answer, answer_call, Msg, application_sdp}
use bare_sip_android.Call.Steps.{Steps, start, next, step, accept, session_closed}
use bare_sip_android.Call.Invariant.{Inv}
use bare_sip_android.Call.Made.{call_alloc-Steps-Inv}
use bare_sip_android.Call.Release.{ClosesLast, step-ClosesLast}
use bare_sip_android.Call.Answer.{call_answer_lem}

-- everything succeeds
abbrev fine : Env
fine log e = 0

abbrev prm : AllocPrm
prm = record {
  ua = true;
  local_name = [];
  local_uri = [];
  af = 2;
  vidmode_off = true;
  has_vidcodec = false;
  has_vidsrc = false;
  has_vidisp = false;
  mnat = false;
  mnat_updateh = false;
  msg_left = none;
  xcall_not = false;
  eh = true;
  rtp_bw_max = 1000000;
}

abbrev fresh : Call
unfolding alloc_call zeroed
fresh = (alloc_call prm fine (zeroed prm)).1

made : call_alloc fine prm ≡ (some fresh, 0)
unfolding fresh call_alloc
made = refl

abbrev invite : Msg
invite = record {
  scode = 0;
  left = 10;
  ctype = application_sdp;
  from_auri = b's' ∷ [];
  from_dname = none;
}

rung : Steps fresh (step (accept invite) fine fresh)
unfolding fresh
rung = next (accept invite) fine start refl

call_alloc-Steps-Inv_example : Inv (step (accept invite) fine fresh)
call_alloc-Steps-Inv_example = call_alloc-Steps-Inv fine prm made rung

step-ClosesLast_example : ClosesLast (step (session_closed 0 (some 486)) fine (zeroed prm))
unfolding zeroed
step-ClosesLast_example = step-ClosesLast (session_closed 0 (some 486)) fine (zeroed prm) refl

abbrev ringing_call : Call
unfolding zeroed
ringing_call = record (zeroed prm) { state = incoming; sess = true; got_offer = false }

answered : (call_answer 200 fine ringing_call).0 ≡ 0
unfolding ringing_call call_answer answer_call
answered = refl

call_answer_lem_example :
    ((ringing_call.state ≢ incoming) × (call_answer 200 fine ringing_call).1 ≡ ringing_call)
    ⊎ ((ringing_call.state ≡ incoming)
        × ((l : List Effect) × ((call_answer 200 fine ringing_call).1.log
              ≡ deref desc_ref ∷ sipsess_answer 200 ∷ sdp_encode (not ringing_call.got_offer) ∷ l)))
unfolding ringing_call
call_answer_lem_example = call_answer_lem 200 fine ringing_call refl answered
