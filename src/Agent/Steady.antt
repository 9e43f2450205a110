-- ===== src/Agent/Steady.antt =====
-- What the events of a call that neither ends nor is transferred leave of its user agent
-- (jni/baresip/src/ua.c, call_event_handler).
use bare_sip_android.Prelude.{sym, subst, ◌≡◌, ◌≢◌, refl, some, List, [], ◌∷◌, arith, Bytes, ◌∙◌}
use bare_sip_android.Call.State.{
  Call, CallEvent, ev_incoming, ev_ringing, ev_progress, ev_established, ev_closed, ev_transfer,
}
use bare_sip_android.Agent.State.{Answermode, manual, early_media, auto_answer, Agent, Focus, UaEnv}
use bare_sip_android.Agent.Events.{
  incoming_call, event_case, handle_at, call_event_handler, handle_all,
}
use bare_sip_android.Agent.Delivered.{Without}

-- the call is still there, in its place, and the answers are the same
pub record Steady (f g : Focus) : Type 0 where
  pub same_pre : g.pre ≡ f.pre
  pub still_there : (c : Call) × (g.cur ≡ some c)
  pub same_post : g.post ≡ f.post
  pub same_replies : g.agent.replies ≡ f.agent.replies

incoming-Steady :
    (env : UaEnv) (f : Focus) (c : Call) (m : Answermode) → Steady f (incoming_call env f c m)
incoming-Steady env f c manual = record {
  same_pre = refl;
  still_there = (_, refl);
  same_post = refl;
  same_replies = ground arith;
}
incoming-Steady env f c early_media = record {
  same_pre = refl;
  still_there = (_, refl);
  same_post = refl;
  same_replies = refl;
}
incoming-Steady env f c auto_answer = record {
  same_pre = refl;
  still_there = (_, refl);
  same_post = refl;
  same_replies = refl;
}

untouched-Steady :
    (f : Focus) (c : Call) (a : Agent)
    → f.cur ≡ some c
    → a.replies ≡ f.agent.replies
    → Steady f (record f { agent = a })
untouched-Steady f c a at same = record {
  same_pre = refl;
  still_there = (c, at);
  same_post = refl;
  same_replies = same;
}

handle_at-Steady :
    (env : UaEnv) (paddr auri : Bytes) (ev : CallEvent) (f : Focus) (c : Call)
    → f.cur ≡ some c
    → ev ≢ ev_transfer
    → ev ≢ ev_closed
    → Steady f (handle_at env paddr auri ev f (some c))
unfolding event_case
handle_at-Steady env paddr auri ev_incoming f c at n m =
    let s = incoming-Steady env f c f.agent.answermode in
    record {
      same_pre = s.same_pre;
      still_there = s.still_there;
      same_post = s.same_post;
      same_replies = s.same_replies;
    }
handle_at-Steady env paddr auri ev_ringing f c at n m = untouched-Steady f c _ at refl
handle_at-Steady env paddr auri ev_progress f c at n m = untouched-Steady f c _ at (ground arith)
handle_at-Steady env paddr auri ev_established f c at n m = untouched-Steady f c _ at (ground arith)
handle_at-Steady env paddr auri ev_closed f c at n m = elim (m refl) [ ]
handle_at-Steady env paddr auri ev_transfer f c at n m = elim (n refl) [ ]

Steady-trans : {f g h : Focus} → Steady f g → Steady g h → Steady f h
Steady-trans s t = record {
  same_pre = t.same_pre ∙ s.same_pre;
  still_there = t.still_there;
  same_post = t.same_post ∙ s.same_post;
  same_replies = t.same_replies ∙ s.same_replies;
}

-- one event of a call that is there
event-Steady :
    (env : UaEnv) (paddr auri : Bytes) (ev : CallEvent) (f : Focus) (c : Call)
    → f.cur ≡ some c
    → ev ≢ ev_transfer
    → ev ≢ ev_closed
    → Steady f (handle_at env paddr auri ev f f.cur)
event-Steady env paddr auri ev f c at n m =
    subst (λ o. Steady f (handle_at env paddr auri ev f o)) (sym at)
      (handle_at-Steady env paddr auri ev f c at n m)

pub handle_all-Steady :
    (env : UaEnv) (paddr auri : Bytes) (evs : List CallEvent) (f : Focus) (c : Call)
    → f.cur ≡ some c
    → Without ev_transfer evs
    → Without ev_closed evs
    → Steady f (handle_all env paddr auri evs f)
unfolding handle_all call_event_handler
handle_all-Steady env paddr auri [] f c at w o = untouched-Steady f c f.agent at refl
handle_all-Steady env paddr auri (ev ∷ evs) f c at (n, w) (m, o) =
    let s = event-Steady env paddr auri ev f c at n m in
    let (d, there) = s.still_there in
    Steady-trans s (handle_all-Steady env paddr auri evs _ d there w o)
