-- ===== src/Agent/Commands.antt =====
-- What the operations of a user agent on its calls leave true (jni/baresip/src/ua.c).
use bare_sip_android.Prelude.{
  ℕ, suc, ◌+◌, ◌≡◌, refl, Bool, Option, none, some, List, [], ◌∷◌, ◌++◌, All, length, arith, subst,
  inl, inr, ◌∙◌, ◌==◌, Bool-cases, length-append,
}
use bare_sip_android.Call.State.{Call}
use bare_sip_android.Call.Control.{Msg, call_connect, call_accept, call_answer}
use bare_sip_android.Call.Kept.{closes}
use bare_sip_android.Call.Quiet.{answer-Held}
use bare_sip_android.Call.Steps.{accept, step}
use bare_sip_android.Call.Release.{step-ClosesLast}
use bare_sip_android.Call.Growth.{step-Grows}
use bare_sip_android.Call.Invariant.{Inv, Held-Inv, connect-Inv, hangup-Inv, accept-Inv}
use bare_sip_android.Call.Made.{Fresh, Fresh-Inv, call_made-Fresh}
use bare_sip_android.Agent.State.{Ua, UaEnv}
use bare_sip_android.Agent.Operations.{
  deliver, current_call, ua_hangup, hangup_current, ua_answer, answer_current, ConnectPrm,
  connect_prm, connect_new, ua_connect, invite_prm, accept_new, sipsess_conn_handler,
}
use bare_sip_android.Agent.Good.{Live, Good, All-append}
use bare_sip_android.Agent.Handled.{connect-closes}
use bare_sip_android.Agent.Delivered.{deliver-Good}

-- the call that was added last, with those before it
Chosen : ℕ → Option (List Call × Call) → Type 0
Chosen n none = Unit
Chosen n (some (pre, c)) = All Live pre × (Live c × (n ≡ suc (length pre)))

current_call-Chosen :
    (pre calls : List Call)
    → All Live pre
    → All Live calls
    → Chosen (length pre + length calls) (current_call pre calls)
unfolding Chosen current_call
current_call-Chosen pre [] p q = tt
current_call-Chosen pre (c ∷ []) p (l, q) = (p, (l, omega arith))
current_call-Chosen pre (c ∷ d ∷ calls) p (l, q) =
    subst (λ k. Chosen k (current_call (pre ++ c ∷ []) (d ∷ calls)))
      (omega (arith, length-append pre (c ∷ [])))
      (current_call-Chosen (pre ++ c ∷ []) (d ∷ calls) (All-append Live pre (c ∷ []) p (l, tt)) q)

last-Chosen : (ua : Ua) → Good ua → Chosen (length ua.calls) (current_call [] ua.calls)
last-Chosen ua g =
    subst (λ k. Chosen k (current_call [] ua.calls)) (omega arith)
      (current_call-Chosen [] ua.calls tt g.live)

module _ (env : UaEnv) where
  hangup_current-Good :
      (ua : Ua) (o : Option (List Call × Call))
      → Chosen (length ua.calls) o
      → Good ua
      → Good (hangup_current env ua o)
  unfolding Chosen
  hangup_current-Good ua none h g = g
  hangup_current-Good ua (some (pre, c)) (p, (l, e)) g = record {
    live = p;
    released_kept = (hangup-Inv env.call c l.kept, g.released_kept);
    menu_calls = λ m. ground arith;
  }

  pub ua_hangup-Good : (ua : Ua) → Good ua → Good (ua_hangup env ua)
  unfolding ua_hangup
  ua_hangup-Good ua g = hangup_current-Good ua _ (last-Chosen ua g) g

  answer_current-Good :
      (ua : Ua) (o : Option (List Call × Call))
      → Chosen (length ua.calls) o
      → Good ua
      → Good (answer_current env ua o)
  unfolding Chosen
  answer_current-Good ua none h g = g
  answer_current-Good ua (some (pre, c)) (p, (l, e)) g =
      let h = answer-Held 200 env.call c in
      record {
        live =
            All-append Live pre _ p
              (record { kept = Held-Inv h l.kept; open_still = h.closes_held ∙ l.open_still }, tt);
        released_kept = g.released_kept;
        menu_calls = λ m. omega (arith, length-append pre ((call_answer 200 env.call c).1 ∷ []));
      }

  pub ua_answer-Good : (ua : Ua) → Good ua → Good (ua_answer env ua)
  unfolding ua_answer
  ua_answer-Good ua g = answer_current-Good ua _ (last-Chosen ua g) g

  connect_new-Good :
      (k : ConnectPrm) (ua : Ua) (o : Option Call) (err : ℕ)
      → ((c : Call) → o ≡ some c → Fresh c)
      → Good ua
      → Good (connect_new env k ua (o, err)).1
  connect_new-Good k ua none err fresh g = g
  connect_new-Good k ua (some c) err fresh g =
      let new = fresh c refl in
      let inv : Inv (call_connect k.paddr k.auri env.call c).1 =
        connect-Inv k.paddr k.auri env.call c new.still_idle (Fresh-Inv c new) in
      elim (Bool-cases ((call_connect k.paddr k.auri env.call c).0 == 0)) [
        | inl e ↦ rw e (added _ inv (connect-closes k.paddr k.auri env.call c ∙ new.nothing_closed))
        | inr e ↦ rw e (record {
          live = g.live;
          released_kept = (inv, g.released_kept);
          menu_calls = g.menu_calls;
        })
      ]
    where
      added :
          (d : Call) → Inv d → closes d.log ≡ 0 → Good (record ua { calls = ua.calls ++ d ∷ [] })
      added d v h = record {
        live = All-append Live ua.calls (d ∷ []) g.live (record { kept = v; open_still = h }, tt);
        released_kept = g.released_kept;
        menu_calls = λ m. omega (arith, length-append ua.calls (d ∷ []));
      }

  pub ua_connect-Good : (k : ConnectPrm) (ua : Ua) → Good ua → Good (ua_connect env k ua).1
  unfolding ua_connect
  ua_connect-Good k ua g = elim (Bool-cases (k.dial_err == 0)) [
    | inl e ↦
        rw e (connect_new-Good k ua _ _ (call_made-Fresh env.call (connect_prm k ua.agent.prm)) g)
    | inr e ↦ rw e g
  ]

  accepted-Good :
      (msg : Msg) (c : Call) (ua : Ua)
      → Inv (call_accept msg env.call c).1
      → closes c.log ≡ 0
      → Good ua
      → Good (
          deliver env [] []
            (record { pre = ua.calls; cur = none; post = []; agent = ua.agent })
            c
            (call_accept msg env.call c).1)
  unfolding step
  accepted-Good msg c ua inv h g =
      deliver-Good env [] [] _ c (call_accept msg env.call c).1
        (record {
          tended = record {
            before = g.live;
            here = (inv, refl);
            behind = tt;
            freed = g.released_kept;
          };
          menu = λ m. omega arith;
        })
        h (step-Grows (accept msg) env.call c) (step-ClosesLast (accept msg) env.call c h)

  accept_new-Good :
      (msg : Msg) (ua : Ua) (o : Option Call)
      → ((c : Call) → o ≡ some c → Fresh c)
      → Good ua
      → Good (accept_new env msg ua o)
  accept_new-Good msg ua none fresh g = record {
    live = g.live;
    released_kept = g.released_kept;
    menu_calls = g.menu_calls;
  }
  accept_new-Good msg ua (some c) fresh g =
      let new = fresh c refl in
      let inv = accept-Inv msg env.call c new.still_idle (Fresh-Inv c new) in
      elim (Bool-cases ((call_accept msg env.call c).0 == 0)) [
        | inl e ↦ rw e (accepted-Good msg c ua inv new.nothing_closed g)
        | inr e ↦ rw e (record {
          live = g.live;
          released_kept = (inv, g.released_kept);
          menu_calls = g.menu_calls;
        })
      ]

  pub sipsess_conn_handler-Good :
      (known unsupported : Bool) (msg : Msg) (ua : Ua)
      → Good ua
      → Good (sipsess_conn_handler env known unsupported msg ua)
  unfolding sipsess_conn_handler
  sipsess_conn_handler-Good known unsupported msg ua g =
      ground
        (arith, accept_new-Good msg ua _ (call_made-Fresh env.call (invite_prm msg ua.agent.prm)) g)
