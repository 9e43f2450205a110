-- ===== src/Agent/Inputs.antt =====
-- An input of one of the calls of a user agent (jni/baresip/src/ua.c).
use bare_sip_android.Prelude.{
  ℕ, zero, suc, ◌+◌, ◌<◌, ◌≡◌, refl, true, Option, none, some, List, [], ◌∷◌, ◌++◌, All, length,
  get_elem?, arith, Bytes, subst, length-append,
}
use bare_sip_android.Call.State.{Call}
use bare_sip_android.Call.Steps.{Input, step, Enabled}
use bare_sip_android.Call.Release.{step-ClosesLast}
use bare_sip_android.Call.Growth.{step-Grows}
use bare_sip_android.Call.Invariant.{Inv, step-Inv}
use bare_sip_android.Agent.State.{Agent, Ua, Focus, UaEnv}
use bare_sip_android.Agent.Operations.{deliver, focus, call_input, input_at}
use bare_sip_android.Agent.Good.{Live, Told, GoodAt, Good, All-append}
use bare_sip_android.Agent.Delivered.{deliver-Good}

-- a call at hand that is the `n`th of `calls`
Focused : ℕ → List Call → Option (Focus × Call) → Type 0
Focused n calls none = Unit
Focused n calls (some (f, c)) = GoodAt 0 f × ((f.cur ≡ some c) × (get_elem? calls n ≡ some c))

focus-Focused :
    (pre : List Call) (n : ℕ) (calls : List Call) (a : Agent)
    → All Live pre
    → All Live calls
    → All Inv a.released
    → (a.incall ≡ true → 0 < length pre + length calls)
    → Focused n calls (focus pre n calls a)
unfolding Focused focus
focus-Focused pre n [] a p q r m = tt
focus-Focused pre zero (c ∷ post) a p (l, q) r m = (
  record {
    tended = record { before = p; here = (l.kept, l.open_still); behind = q; freed = r };
    menu = λ i. ground (arith, m i);
  },
  (refl, refl),
)
focus-Focused pre (suc n) (c ∷ post) a p (l, q) r m =
    focus-Focused (pre ++ c ∷ []) n post a (All-append Live pre (c ∷ []) p (l, tt)) q r
      (λ i. omega (arith, m i, length-append pre (c ∷ [])))

module _ (env : UaEnv) (paddr auri : Bytes) where
  stepped-Good :
      (f : Focus) (i : Input) (c : Call)
      → f.cur ≡ some c
      → Enabled i c
      → GoodAt 0 f
      → Good (deliver env paddr auri f c (step i env.call c))
  stepped-Good f i c at e g =
      let (inv, open_still) = subst (Told 0) at g.tended.here in
      deliver-Good env paddr auri f c (step i env.call c)
        (record {
          tended = record {
            before = g.tended.before;
            here = (step-Inv i env.call c e inv, refl);
            behind = g.tended.behind;
            freed = g.tended.freed;
          };
          menu = λ m. omega arith;
        })
        open_still (step-Grows i env.call c) (step-ClosesLast i env.call c open_still)

  input_at-Good :
      (n : ℕ) (i : Input) (ua : Ua) (o : Option (Focus × Call))
      → ((c : Call) → get_elem? ua.calls n ≡ some c → Enabled i c)
      → Focused n ua.calls o
      → Good ua
      → Good (input_at env paddr auri i ua o)
  unfolding Focused
  input_at-Good n i ua none e p g = g
  input_at-Good n i ua (some (f, c)) e (fg, (at, found)) g = stepped-Good f i c at (e c found) fg

  pub call_input-Good :
      (n : ℕ) (i : Input) (ua : Ua)
      → ((c : Call) → get_elem? ua.calls n ≡ some c → Enabled i c)
      → Good ua
      → Good (call_input env paddr auri n i ua)
  unfolding call_input
  call_input-Good n i ua e g =
      input_at-Good n i ua _ e
        (focus-Focused [] n ua.calls ua.agent tt g.live g.released_kept
          (λ m. omega (arith, g.menu_calls m)))
        g
