-- ===== src/Agent/Handled.antt =====
-- What the user agent's handler of an event leaves true (jni/baresip/src/ua.c, call_event_handler).
use bare_sip_android.Prelude.{
  ℕ, ◌≡◌, ◌≢◌, refl, Option, none, some, [], ◌∷◌, ◌++◌, All, ltb, ◌==◌, arith, Bytes, Bool-cases,
  subst, sym, inl, inr, ◌∙◌,
}
use bare_sip_android.Call.State.{
  Call, Env, CallEvent, ev_incoming, ev_ringing, ev_progress, ev_established, ev_closed,
  ev_transfer, other_wav,
}
use bare_sip_android.Call.Control.{call_connect, send_invite}
use bare_sip_android.Call.Kept.{Held, closes, call_notify_sipfrag-Kept}
use bare_sip_android.Call.Quiet.{progress-Held, answer-Held, ringtone-Held}
use bare_sip_android.Call.Invariant.{Inv, connect-Inv}
use bare_sip_android.Call.Made.{Fresh, Fresh-Inv, call_made-Fresh}
use bare_sip_android.Agent.State.{
  Agent, Focus, UaEnv, count_calls, Answermode, manual, early_media, auto_answer,
}
use bare_sip_android.Agent.Events.{
  event_case, transfer_call, transfer_prm, incoming_call, transfer_failed, connect_target,
  handle_at, call_event_handler, menu_set_incall,
}
use bare_sip_android.Agent.Good.{Live, Told, Tended, GoodAt, Held-Told, All-append}

pub connect-closes :
    (paddr auri : Bytes) (env : Env) (c : Call)
    → closes (call_connect paddr auri env c).1.log ≡ closes c.log
unfolding call_connect send_invite
connect-closes paddr auri env c = ground arith

module _ (k : ℕ) (f : Focus) (c : Call) (at : f.cur ≡ some c) (t : Tended k f) where
  told : Told k (some c)
  told = subst (Told k) at t.here

  -- the call at hand after something that raises no event, whatever the agent keeps besides
  put_back :
      (d : Call) (a : Agent)
      → Held c d
      → a.released ≡ f.agent.released
      → Tended k (record f { cur = some d; agent = a })
  put_back d a h e = record {
    before = t.before;
    here = Held-Told k h told;
    behind = t.behind;
    freed = subst (All Inv) (sym e) t.freed;
  }

  same_calls : (a : Agent) → a.released ≡ f.agent.released → Tended k (record f { agent = a })
  same_calls a e = record {
    before = t.before;
    here = t.here;
    behind = t.behind;
    freed = subst (All Inv) (sym e) t.freed;
  }

  incoming-Tended : (env : UaEnv) (m : Answermode) → Tended k (incoming_call env f c m)
  incoming-Tended env early_media = put_back _ _ (progress-Held env.call c) refl
  incoming-Tended env auto_answer = put_back _ _ (answer-Held 200 env.call c) refl
  incoming-Tended env manual = put_back _ _ (ringtone-Held other_wav env.call c) (ground arith)

  closed-Tended :
      (env : UaEnv) (paddr auri : Bytes)
      → (j : ℕ) → Tended j (event_case env paddr auri f c ev_closed)
  unfolding event_case
  closed-Tended env paddr auri j = record {
    before = t.before;
    here = tt;
    behind = t.behind;
    freed = (told.0, t.freed);
  }

  failed-Tended :
      (env : UaEnv) (a : Agent)
      → All Inv a.released
      → Tended k (transfer_failed env (record f { agent = a }) c)
  failed-Tended env a r = record {
    before = t.before;
    here = Held-Told k (call_notify_sipfrag-Kept 500 env.call c).held told;
    behind = t.behind;
    freed = r;
  }

  connected-Tended :
      (env : UaEnv) (d : Call)
      → Live d
      → Tended k (record f { cur = some c; post = f.post ++ d ∷ [] })
  connected-Tended env d l = record {
    before = t.before;
    here = told;
    behind = All-append Live f.post (d ∷ []) t.behind (l, tt);
    freed = t.freed;
  }

  target-Tended :
      (env : UaEnv) (paddr auri : Bytes) (o : Option Call)
      → ((d : Call) → o ≡ some d → Fresh d)
      → Tended k (connect_target env paddr auri f c o)
  target-Tended env paddr auri none fresh = failed-Tended env f.agent t.freed
  target-Tended env paddr auri (some d) fresh =
      let new = fresh d refl in
      let inv : Inv (call_connect paddr auri env.call d).1 =
        connect-Inv paddr auri env.call d new.still_idle (Fresh-Inv d new) in
      elim (Bool-cases ((call_connect paddr auri env.call d).0 == 0)) [
        | inl e ↦ rw e (
            connected-Tended env _ (record {
              kept = inv;
              open_still = connect-closes paddr auri env.call d ∙ new.nothing_closed;
            }))
        | inr e ↦ rw e (failed-Tended env _ (inv, t.freed))
      ]

  transfer-Tended : (env : UaEnv) (paddr auri : Bytes) → Tended k (transfer_call env paddr auri f c)
  unfolding transfer_call
  transfer-Tended env paddr auri =
      target-Tended env paddr auri _ (call_made-Fresh env.call (transfer_prm f.agent c))

  event_case-Tended :
      (env : UaEnv) (paddr auri : Bytes) (ev : CallEvent)
      → ev ≢ ev_closed
      → Tended k (event_case env paddr auri f c ev)
  unfolding event_case
  event_case-Tended env paddr auri ev_incoming n = incoming-Tended env f.agent.answermode
  event_case-Tended env paddr auri ev_ringing n = same_calls _ refl
  event_case-Tended env paddr auri ev_progress n = same_calls _ (ground arith)
  event_case-Tended env paddr auri ev_established n = same_calls _ (ground arith)
  event_case-Tended env paddr auri ev_closed n = elim (n refl) [ ]
  event_case-Tended env paddr auri ev_transfer n = transfer-Tended env paddr auri

-- the menu follows the number of calls
with_menu :
    (k : ℕ) (env : UaEnv) (f : Focus)
    → Tended k f
    → GoodAt k (record f { agent = menu_set_incall env (ltb 0 (count_calls f)) f.agent })
with_menu k env f t = record {
  tended = record { before = t.before; here = t.here; behind = t.behind; freed = t.freed };
  menu = λ m. ground arith;
}

no_call : (k j : ℕ) (f : Focus) → f.cur ≡ none → GoodAt k f → GoodAt j f
no_call k j f at g = record {
  tended = record {
    before = g.tended.before;
    here = subst (Told j) (sym at) tt;
    behind = g.tended.behind;
    freed = g.tended.freed;
  };
  menu = g.menu;
}

pub call_event_handler-GoodAt :
    (k : ℕ) (env : UaEnv) (paddr auri : Bytes) (ev : CallEvent) (f : Focus)
    → ev ≢ ev_closed
    → GoodAt k f
    → GoodAt k (call_event_handler env paddr auri ev f)
unfolding call_event_handler
call_event_handler-GoodAt k env paddr auri ev f n g = at_call f.cur refl
  where
    at_call : (o : Option Call) → f.cur ≡ o → GoodAt k (handle_at env paddr auri ev f o)
    at_call none e = g
    at_call (some c) e = with_menu k env _ (event_case-Tended k f c e g.tended env paddr auri ev n)

-- A call that is closed is released.
pub call_event_handler-closed :
    (k : ℕ) (env : UaEnv) (paddr auri : Bytes) (f : Focus)
    → GoodAt k f
    → GoodAt 0 (call_event_handler env paddr auri ev_closed f)
unfolding call_event_handler
call_event_handler-closed k env paddr auri f g = at_call f.cur refl
  where
    at_call : (o : Option Call) → f.cur ≡ o → GoodAt 0 (handle_at env paddr auri ev_closed f o)
    at_call none e = no_call k 0 f e g
    at_call (some c) e = with_menu 0 env _ (closed-Tended k f c e g.tended env paddr auri 0)
