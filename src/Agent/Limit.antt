-- ===== src/Agent/Limit.antt =====
-- How many calls a user agent lists after an INVITE (jni/baresip/src/ua.c, sipsess_conn_handler).
use bare_sip_android.Prelude.{
  ℕ, ap, append-nil, ◌++◌, length-append, ◌+◌, ◌-◌, ◌≤◌, ◌≡◌, refl, Bool, true, false, Option, none,
  some, List, [], ◌∷◌, All, length, arith, inl, inr, ◌⊎◌, ◌∙◌, ◌==◌, ltb, if◌then◌else◌, Bool-cases,
}
use bare_sip_android.Call.State.{
  Call, Env, Effect, event, ev_incoming, ev_ringing, ev_progress, ev_established, ev_closed,
  ev_transfer, call_event,
}
use bare_sip_android.Call.Alloc.{call_alloc}
use bare_sip_android.Call.Control.{Msg, call_accept}
use bare_sip_android.Call.Made.{Fresh, call_made-Fresh}
use bare_sip_android.Call.Kept.{closes, transfers, transfer_weight}
use bare_sip_android.Agent.State.{Ua, Focus, UaEnv, call_list, unfocus, events_since, raised}
use bare_sip_android.Agent.Events.{handle_all}
use bare_sip_android.Agent.Operations.{
  max_calls, deliver, reply, invite_prm, accept_new, sipsess_conn_handler,
}
use bare_sip_android.Agent.Delivered.{Without, new_events-Without, new_events-Others}
use bare_sip_android.Agent.Steady.{handle_all-Steady}

raised-Without : (e : Effect) → transfer_weight e ≡ 0 → Without ev_transfer (raised e)
raised-Without (event ev_incoming) h = (ground arith, tt)
raised-Without (event ev_ringing) h = (ground arith, tt)
raised-Without (event ev_progress) h = (ground arith, tt)
raised-Without (event ev_established) h = (ground arith, tt)
raised-Without (event ev_closed) h = (ground arith, tt)
raised-Without (event ev_transfer) h = ground (arith, h)
raised-Without _ h = tt

transfers-Without :
    (l : List Effect) → transfers l ≡ 0 → All (λ e. Without ev_transfer (raised e)) l
transfers-Without [] h = tt
transfers-Without (e ∷ l) h = (raised-Without e (omega arith), transfers-Without l (omega arith))

accept-transfers :
    (msg : Msg) (env : Env) (c : Call) → transfers (call_accept msg env c).1.log ≡ transfers c.log
unfolding call_accept call_event
accept-transfers msg env c = ground arith

accept-closes :
    (msg : Msg) (env : Env) (c : Call) → closes (call_accept msg env c).1.log ≡ closes c.log
unfolding call_accept call_event
accept-closes msg env c = ground arith

-- What an INVITE leaves: the calls as they were and one more answer; or exactly one call more,
-- behind the others, and the same answers.
abbrev pub Answered : Ua → Ua → Type 0
Answered ua ua' =
    (ua'.calls ≡ ua.calls) × ((code : ℕ) × (ua'.agent.replies ≡ code ∷ ua.agent.replies))

abbrev pub Listed : Ua → Ua → Type 0
Listed ua ua' =
    (d : Call) × ((ua'.calls ≡ ua.calls ++ d ∷ []) × (ua'.agent.replies ≡ ua.agent.replies))

unfocus-calls :
    (g : Focus) (calls : List Call) (d : Call)
    → g.pre ≡ calls
    → g.cur ≡ some d
    → g.post ≡ []
    → (unfocus g).calls ≡ calls ++ d ∷ []
unfocus-calls g calls d p q r =
    ap (λ l. l ++ call_list g.cur ++ g.post) p
    ∙ ap (λ o. calls ++ call_list o ++ g.post) q
    ∙ ap (λ l. calls ++ d ∷ [] ++ l) r
    ∙ append-nil (calls ++ d ∷ [])

accepted-Listed :
    (env : UaEnv) (msg : Msg) (ua : Ua) (c : Call)
    → Fresh c
    → Listed ua (
        deliver env [] []
          (record { pre = ua.calls; cur = none; post = []; agent = ua.agent })
          c
          (call_accept msg env.call c).1)
unfolding deliver
accepted-Listed env msg ua c fresh =
    let d = (call_accept msg env.call c).1 in
    let f : Focus = record { pre = ua.calls; cur = some d; post = []; agent = ua.agent } in
    let quiet =
      transfers-Without d.log (accept-transfers msg env.call c ∙ fresh.nothing_transferred) in
    let n = length d.log - length c.log in
    let s =
      handle_all-Steady env [] [] (events_since c d) f d refl
        (new_events-Without ev_transfer n d.log [] quiet tt)
        (new_events-Others n d.log [] (accept-closes msg env.call c ∙ fresh.nothing_closed) tt) in
    let (e, there) = s.still_there in
    (
      e,
      (
        unfocus-calls (handle_all env [] [] (events_since c d) f) ua.calls e s.same_pre there
            s.same_post,
        s.same_replies,
      ),
    )

accept_new-cases :
    (env : UaEnv) (msg : Msg) (ua : Ua) (o : Option Call)
    → ((c : Call) → o ≡ some c → Fresh c)
    → Answered ua (accept_new env msg ua o) ⊎ Listed ua (accept_new env msg ua o)
accept_new-cases env msg ua none fresh = inl (refl, (500, refl))
accept_new-cases env msg ua (some c) fresh =
    elim (Bool-cases ((call_accept msg env.call c).0 == 0)) [
      | inl e ↦ rw e (inr (accepted-Listed env msg ua c (fresh c refl)))
      | inr e ↦ rw e (inl (refl, (500, refl)))
    ]

abbrev pub Within : Ua → Ua → Type 0
Within ua ua' = (length ua'.calls ≤ max_calls) × (Answered ua ua' ⊎ Listed ua ua')

Answered-Within : (ua ua' : Ua) → length ua.calls ≤ max_calls → Answered ua ua' → Within ua ua'
Answered-Within ua ua' h (same, r) = (rw same h, inl (same, r))

Listed-Within : (ua ua' : Ua) → length ua.calls + 1 ≤ max_calls → Listed ua ua' → Within ua ua'
Listed-Within ua ua' h (d, (e, r)) =
    (omega (arith, h, ap length e, length-append ua.calls (d ∷ [])), inr (d, (e, r)))

accept_new-Within :
    (env : UaEnv) (msg : Msg) (ua : Ua) (o : Option Call)
    → ((c : Call) → o ≡ some c → Fresh c)
    → length ua.calls + 1 ≤ max_calls
    → Within ua (accept_new env msg ua o)
accept_new-Within env msg ua o fresh h = elim (accept_new-cases env msg ua o fresh) [
  | inl a ↦ Answered-Within ua (accept_new env msg ua o) (omega (arith, h)) a
  | inr l ↦ Listed-Within ua (accept_new env msg ua o) h l
]

-- An INVITE, whatever the environment answers, either is answered by the user agent itself, which
-- then keeps its calls as they were and gives exactly one answer more, or is left to a call, which
-- is listed behind those before it, and the user agent itself gives no answer; and a user agent that lists at most `max_calls` calls still does.
pub sipsess_conn_handler-limit :
    (env : UaEnv) (known unsupported : Bool) (msg : Msg) (ua : Ua)
    → length ua.calls ≤ max_calls
    → Within ua (sipsess_conn_handler env known unsupported msg ua)
unfolding sipsess_conn_handler
sipsess_conn_handler-limit env false unsupported msg ua h =
    Answered-Within ua (reply 404 ua) h (refl, (404, refl))
sipsess_conn_handler-limit env true unsupported msg ua h =
    elim (Bool-cases (ltb max_calls (length ua.calls + 1))) [
      | inl full ↦ rw full (Answered-Within ua (reply 486 ua) h (refl, (486, refl)))
      | inr room ↦ rw room (with_room unsupported (ground (arith, room)))
    ]
  where
    with_room :
        (unsupported : Bool)
        → length ua.calls + 1 ≤ max_calls
        → Within ua (
            if unsupported
            then reply 420 ua
            else accept_new env msg ua (call_alloc env.call (invite_prm msg ua.agent.prm)).0)
    with_room true k = Answered-Within ua (reply 420 ua) h (refl, (420, refl))
    with_room false k =
        accept_new-Within env msg ua _ (call_made-Fresh env.call (invite_prm msg ua.agent.prm)) k
