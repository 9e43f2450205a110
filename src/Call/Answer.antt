-- ===== src/Call/Answer.antt =====
-- Answering, hanging up and changing a call, and its duration (jni/baresip/src/call.c).
use bare_sip_android.Prelude.{
  ℕ, ◌+◌, ◌*◌, ◌^◌, ◌≤◌, ◌<◌, ◌≡◌, ◌≢◌, ◌⊎◌, inl, inr, refl, true, false, not, List, ◌∷◌, arith,
  if◌then◌else◌,
}
use bare_sip_android.Call.State.{
  CallState, incoming, terminated, play_ref, desc_ref, Effect, sdp_encode, sipsess_answer, deref,
  Call, Env,
}
use bare_sip_android.Call.Control.{call_hangup, call_answer, answer_call, is_incoming}
use bare_sip_android.Call.Media.{call_stream_stop, update_media, print_duration, call_duration}

-- the log behind the answer
answer_call_lem :
    (scode : ℕ) (env : Env) (c : Call)
    → (answer_call scode env c).0 ≡ 0
    → (l : List Effect) × ((answer_call scode env c).1.log
        ≡ deref desc_ref ∷ sipsess_answer scode ∷ sdp_encode (not c.got_offer) ∷ l)
unfolding answer_call
answer_call_lem scode env c ok =
    let silent : Call = record c { play = false; log = deref play_ref ∷ c.log } in
    (if c.got_offer then (update_media env silent).1.log else silent.log, ground arith)

-- If answering a call with a session returns no error, either the call is in another state than
-- `incoming` and stays as it is, or it is in this state, and the last thing done with it was to send
-- the answer, with a description that was encoded just before, as an offer exactly if none had come.
pub call_answer_lem :
    (scode : ℕ) (env : Env) (c : Call)
    → c.sess ≡ true
    → (call_answer scode env c).0 ≡ 0
    → ((c.state ≢ incoming) × (call_answer scode env c).1 ≡ c)
      ⊎ ((c.state ≡ incoming)
          × ((l : List Effect) × ((call_answer scode env c).1.log
                ≡ deref desc_ref ∷ sipsess_answer scode ∷ sdp_encode (not c.got_offer) ∷ l)))
unfolding call_answer
call_answer_lem scode env c s ok = go c.state refl
  where
    go :
        (st : CallState)
        → c.state ≡ st
        → ((c.state ≢ incoming) × (call_answer scode env c).1 ≡ c)
          ⊎ ((c.state ≡ incoming)
              × ((l : List Effect) × ((call_answer scode env c).1.log
                    ≡ deref desc_ref ∷ sipsess_answer scode ∷ sdp_encode (not c.got_offer) ∷ l)))
    go incoming e =
        let sent : (answer_call scode env c).0 ≡ 0 = ground arith in
        let (l, h) = answer_call_lem scode env c sent in inr (e, (l, ground arith))
    go _ e = inl (λ h. cc, ground arith)

-- Hanging up ends in the state `terminated` with the invitation timer off, from every state, and
-- returns no error; an incoming call keeps its session, which is rejected, and any other call
-- releases it.
call_hangup_lem :
    (env : Env) (c : Call)
    → let (err, d) = call_hangup env c in
      (err ≡ 0)
      × (d.state ≡ terminated)
      × (d.tmr_inv ≡ false)
      × (d.sess ≡ (if is_incoming c.state then c.sess else false))
unfolding call_hangup call_stream_stop
call_hangup_lem env c = (refl, refl, refl, ground arith)

-- The printed hours, minutes and seconds add up to the duration, and minutes and seconds are below
-- 60.
pub print_duration_lem :
    (dur : ℕ)
    → let (hrs, min, sec) = print_duration dur in
      (hrs * 3600 + min * 60 + sec ≡ dur) × (min < 60) × (sec < 60)
unfolding print_duration
print_duration_lem dur = omega arith

-- Of a call that was started, less than 2 ^ 32 seconds ago, the duration is the time since then.
pub call_duration_lem :
    (t : ℕ) (c : Call)
    → c.time_start ≢ 0
    → c.time_start ≤ t
    → t < c.time_start + 2 ^ 32
    → call_duration t c + c.time_start ≡ t
unfolding call_duration
call_duration_lem t c s lo hi = ground arith
