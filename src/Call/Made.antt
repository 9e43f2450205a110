-- ===== src/Call/Made.antt =====
-- A call as call_alloc makes it, and what holds of it from then on (jni/baresip/src/call.c).
use bare_sip_android.Prelude.{ℕ, ◌≡◌, inl, inr, subst, ap, false, some, arith, ◌==◌, Bool-cases}
use bare_sip_android.Call.State.{idle, sdp_session_alloc, sdp_set_lattr, Call, Env, M, ext, attempt}
use bare_sip_android.Call.Kept.{invites, closes, transfers}
use bare_sip_android.Call.Steps.{Steps}
use bare_sip_android.Call.Alloc.{
  AllocPrm, call_alloc, alloc_call, zeroed, copy_names, start_mnat, add_audio, add_video,
  wait_for_mnat, finish_alloc,
}
use bare_sip_android.Call.Invariant.{Inv, Steps-Inv}

pub record Fresh (c : Call) : Type 0 where
  pub still_idle : c.state ≡ idle
  pub no_timer : c.tmr_inv ≡ false
  pub nothing_sent : invites c.log ≡ 0
  pub nothing_closed : closes c.log ≡ 0
  pub nothing_transferred : transfers c.log ≡ 0

attempt-Fresh :
    (m k : M ℕ)
    → ((env : Env) (c : Call) → Fresh c → Fresh (m env c).1)
    → ((env : Env) (c : Call) → Fresh c → Fresh (k env c).1)
    → (env : Env) (c : Call) → Fresh c
    → Fresh (attempt m k env c).1
attempt-Fresh m k first then_ env c f = elim (Bool-cases ((m env c).0 == 0)) [
  | inl e ↦ rw e (then_ env (m env c).1 (first env c f))
  | inr e ↦ rw e (first env c f)
]

alloc_call-Fresh :
    (prm : AllocPrm) (env : Env) (c : Call) → Fresh c → Fresh (alloc_call prm env c).1
unfolding alloc_call
alloc_call-Fresh prm =
    let tail = attempt (add_video prm) (finish_alloc prm) in
    let media = attempt add_audio tail in
    let waiting = attempt wait_for_mnat media in
    let nat = attempt (start_mnat prm) waiting in
    let lattr = attempt (ext sdp_set_lattr) nat in
    let session = attempt (ext sdp_session_alloc) lattr in
    attempt-Fresh (copy_names prm) session (λ env c f. ground arith)
      (attempt-Fresh (ext sdp_session_alloc) lattr (λ env c f. ground arith)
        (attempt-Fresh (ext sdp_set_lattr) nat (λ env c f. ground arith)
          (attempt-Fresh (start_mnat prm) waiting (λ env c f. ground arith)
            (attempt-Fresh wait_for_mnat media (λ env c f. ground arith)
              (attempt-Fresh add_audio tail (λ env c f. ground arith)
                (attempt-Fresh (add_video prm) (finish_alloc prm) (λ env c f. ground arith)
                  (λ env c f. ground arith)))))))

pub Fresh-Inv : (c : Call) → Fresh c → Inv c
Fresh-Inv c f = ground arith

alloc-Fresh :
    (env : Env) (prm : AllocPrm) {c : Call} {err : ℕ} → call_alloc env prm ≡ (some c, err) → Fresh c
unfolding call_alloc
alloc-Fresh env prm {c} e =
    let made = (alloc_call prm env (zeroed prm)).1 in
    let same : made ≡ c = ground arith in
    subst Fresh same (alloc_call-Fresh prm env (zeroed prm) (ground arith))

pub call_made-Fresh :
    (env : Env) (prm : AllocPrm) (c : Call) → (call_alloc env prm).0 ≡ some c → Fresh c
call_made-Fresh env prm c e = alloc-Fresh env prm (ap (λ o. (o, (call_alloc env prm).1)) e)

-- However a call was made, and after any inputs that can come in any order: the timer of an
-- incoming call runs only in that state, where there is a session; no INVITE was started
-- while the call is idle or waits for the media NAT session; and at most one was started.
pub call_alloc-Steps-Inv :
    (env : Env) (prm : AllocPrm) {c d : Call} {err : ℕ}
    → call_alloc env prm ≡ (some c, err)
    → Steps c d
    → Inv d
call_alloc-Steps-Inv env prm e r = Steps-Inv (Fresh-Inv _ (alloc-Fresh env prm e)) r
