-- ===== src/Agent/Good.antt =====
-- What holds of a user agent at all times (jni/baresip/src/ua.c): of each of its calls, of those
-- that it has released, and of the menu.
use bare_sip_android.Prelude.{
  ℕ, ◌<◌, ◌≡◌, true, Option, none, some, List, [], ◌∷◌, ◌++◌, All, length, length-append, arith,
}
use bare_sip_android.Call.State.{Call}
use bare_sip_android.Call.Kept.{Held, closes}
use bare_sip_android.Call.Invariant.{Inv, Held-Inv}
use bare_sip_android.Agent.State.{Ua, Focus, call_list, unfocus, count_calls}

-- The call keeps its invariant, and the user agent was not told that it is closed.
pub record Live (c : Call) : Type 0 where
  pub kept : Inv c
  pub open_still : closes c.log ≡ 0

-- the call at hand, of which the user agent was told `k` times that it is closed
abbrev pub Told : ℕ → Option Call → Type 0
Told k none = Unit
Told k (some c) = Inv c × (closes c.log ≡ k)

pub record Good (ua : Ua) : Type 0 where
  pub live : All Live ua.calls
  pub released_kept : All Inv ua.agent.released
  pub menu_calls : ua.agent.incall ≡ true → 0 < length ua.calls

pub record Tended (k : ℕ) (f : Focus) : Type 0 where
  pub before : All Live f.pre
  pub here : Told k f.cur
  pub behind : All Live f.post
  pub freed : All Inv f.agent.released

pub record GoodAt (k : ℕ) (f : Focus) : Type 0 where
  pub tended : Tended k f
  pub menu : f.agent.incall ≡ true → 0 < count_calls f

pub All-append :
    {A : Type 0} (P : A → Type 0) (xs ys : List A) → All P xs → All P ys → All P (xs ++ ys)
All-append P [] ys p q = q
All-append P (x ∷ xs) ys (p, ps) q = (p, All-append P xs ys ps q)

pub Held-Told : {c d : Call} (k : ℕ) → Held c d → Told k (some c) → Told k (some d)
Held-Told k h (v, e) = (Held-Inv h v, omega (arith, h.closes_held, e))

call_list-Live : (o : Option Call) → Told 0 o → All Live (call_list o)
call_list-Live none t = tt
call_list-Live (some c) (v, e) = (record { kept = v; open_still = e }, tt)

pub length-unfocus : (f : Focus) → length (unfocus f).calls ≡ count_calls f
length-unfocus f =
    omega (
      arith,
      length-append (f.pre ++ call_list f.cur) f.post,
      length-append f.pre (call_list f.cur),
    )

pub unfocus-Good : (f : Focus) → GoodAt 0 f → Good (unfocus f)
unfocus-Good f g = record {
  live =
      All-append Live (f.pre ++ call_list f.cur) f.post
        (All-append Live f.pre (call_list f.cur) g.tended.before
          (call_list-Live f.cur g.tended.here))
        g.tended.behind;
  released_kept = g.tended.freed;
  menu_calls = λ m. omega (arith, length-unfocus f, g.menu m);
}
