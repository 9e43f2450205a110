-- ===== src/Agent/Delivered.antt =====
-- What the events that a call raised leave true of its user agent (jni/baresip/src/ua.c).
use bare_sip_android.Prelude.{
  ℕ, zero, suc, ◌-◌, ◌≤◌, ◌≡◌, ◌≢◌, refl, List, [], ◌∷◌, ◌++◌, All, length, append-nil, arith,
  Bytes, subst, sym, some, inl, inr, append_assoc, ap, ◌⊎◌, ◌∙◌,
}
use bare_sip_android.Call.State.{
  Call, CallEvent, ev_closed, ev_incoming, ev_ringing, ev_progress, ev_established, ev_transfer,
  Effect, event,
}
use bare_sip_android.Call.Kept.{closes, closed_weight}
use bare_sip_android.Call.Release.{before_last, ClosesLast}
use bare_sip_android.Call.Growth.{Grows}
use bare_sip_android.Agent.State.{Focus, UaEnv, new_events, raised}
use bare_sip_android.Agent.Events.{handle_all}
use bare_sip_android.Agent.Operations.{deliver}
use bare_sip_android.Agent.Good.{GoodAt, Good, unfocus-Good, All-append}
use bare_sip_android.Agent.Handled.{call_event_handler-GoodAt, call_event_handler-closed}

abbrev pub Without : CallEvent → List CallEvent → Type 0
Without b evs = All (λ ev. ev ≢ b) evs

abbrev pub Others : List CallEvent → Type 0
Others evs = Without ev_closed evs

pub new_events-Without :
    (b : CallEvent) (n : ℕ) (l : List Effect) (evs : List CallEvent)
    → All (λ e. Without b (raised e)) l
    → Without b evs
    → Without b (new_events n l evs)
unfolding new_events
new_events-Without b zero l evs h o = o
new_events-Without b (suc n) [] evs h o = o
new_events-Without b (suc n) (e ∷ l) evs (r, h) o =
    new_events-Without b n l (raised e ++ evs) h (All-append _ (raised e) evs r o)

raised-Others : (e : Effect) → closed_weight e ≡ 0 → Others (raised e)
raised-Others (event ev_incoming) h = (ground arith, tt)
raised-Others (event ev_ringing) h = (ground arith, tt)
raised-Others (event ev_progress) h = (ground arith, tt)
raised-Others (event ev_established) h = (ground arith, tt)
raised-Others (event ev_transfer) h = (ground arith, tt)
raised-Others (event ev_closed) h = ground (arith, h)
raised-Others _ h = tt

closes-Others : (l : List Effect) → closes l ≡ 0 → All (λ e. Others (raised e)) l
closes-Others [] h = tt
closes-Others (e ∷ l) h = (raised-Others e (omega arith), closes-Others l (omega arith))

pub new_events-Others :
    (n : ℕ) (l : List Effect) (evs : List CallEvent)
    → closes l ≡ 0
    → Others evs
    → Others (new_events n l evs)
new_events-Others n l evs h o = new_events-Without ev_closed n l evs (closes-Others l h) o

pub handle_all-append :
    (env : UaEnv) (paddr auri : Bytes) (evs more : List CallEvent) (f : Focus)
    → handle_all env paddr auri (evs ++ more) f
      ≡ handle_all env paddr auri more (handle_all env paddr auri evs f)
unfolding handle_all
handle_all-append env paddr auri [] more f = refl
handle_all-append env paddr auri (ev ∷ evs) more f = handle_all-append env paddr auri evs more _

pub handle_all-GoodAt :
    (k : ℕ) (env : UaEnv) (paddr auri : Bytes) (evs : List CallEvent) (f : Focus)
    → Others evs
    → GoodAt k f
    → GoodAt k (handle_all env paddr auri evs f)
unfolding handle_all
handle_all-GoodAt k env paddr auri [] f o g = g
handle_all-GoodAt k env paddr auri (ev ∷ evs) f (n, o) g =
    handle_all-GoodAt k env paddr auri evs _ o (call_event_handler-GoodAt k env paddr auri ev f n g)

regroup : (xs ys zs : List CallEvent) → xs ++ (ys ++ zs) ≡ (xs ++ (ys ++ [])) ++ zs
regroup xs ys zs = rw (append-nil ys) (sym (append_assoc xs ys zs))

new_events-append :
    (n : ℕ) (l : List Effect) (evs : List CallEvent) → new_events n l evs ≡ new_events n l [] ++ evs
unfolding new_events
new_events-append zero l evs = refl
new_events-append (suc n) [] evs = refl
new_events-append (suc n) (e ∷ l) evs =
    new_events-append n l (raised e ++ evs)
    ∙ regroup (new_events n l []) (raised e) evs
    ∙ ap (λ k. k ++ evs) (sym (new_events-append n l (raised e ++ [])))

Effect-cases : (e : Effect) → (closed_weight e ≡ 0) ⊎ (e ≡ event ev_closed)
Effect-cases (event ev_closed) = inr refl
Effect-cases (event ev_incoming) = inl refl
Effect-cases (event ev_ringing) = inl refl
Effect-cases (event ev_progress) = inl refl
Effect-cases (event ev_established) = inl refl
Effect-cases (event ev_transfer) = inl refl
Effect-cases _ = inl refl

module _ (env : UaEnv) (paddr auri : Bytes) (f : Focus) where
  closed_now-GoodAt :
      (n : ℕ) (l : List Effect)
      → closes l ≡ 0
      → GoodAt 1 f
      → GoodAt 0 (handle_all env paddr auri (new_events n l (ev_closed ∷ [])) f)
  unfolding handle_all
  closed_now-GoodAt n l h g =
      let evs = new_events n l [] in
      let before : GoodAt 1 (handle_all env paddr auri evs f) =
        handle_all-GoodAt 1 env paddr auri evs f (new_events-Others n l [] h tt) g in
      rw
        (
          new_events-append n l (ev_closed ∷ []),
          handle_all-append env paddr auri evs (ev_closed ∷ []) f,
        )
        (call_event_handler-closed 1 env paddr auri _ before)

  ended-GoodAt :
      (n : ℕ) (l : List Effect)
      → closes l ≡ 0
      → 1 ≤ n
      → GoodAt 1 f
      → GoodAt 0 (handle_all env paddr auri (new_events n (event ev_closed ∷ l) []) f)
  unfolding new_events
  ended-GoodAt zero l h k g = ground (arith, k)
  ended-GoodAt (suc n) l h k g = closed_now-GoodAt n l h g

  ended :
      (n : ℕ) (e : Effect) (l : List Effect)
      → closes l ≡ 0
      → closed_weight e ≤ n
      → GoodAt (closes (e ∷ l)) f
      → e ≡ event ev_closed
      → GoodAt 0 (handle_all env paddr auri (new_events n (e ∷ l) []) f)
  ended n e l h k g w =
      let weight : closed_weight e ≡ 1 = ap closed_weight w in
      rw w (ended-GoodAt n l h (omega arith) (subst (λ j. GoodAt j f) (omega arith) g))

  last-GoodAt :
      (n : ℕ) (e : Effect) (l : List Effect)
      → closes l ≡ 0
      → closed_weight e ≤ n
      → GoodAt (closes (e ∷ l)) f
      → GoodAt 0 (handle_all env paddr auri (new_events n (e ∷ l) []) f)
  last-GoodAt n e l h k g = elim (Effect-cases e) [
    | inl w ↦
        handle_all-GoodAt 0 env paddr auri _ f (new_events-Others n (e ∷ l) [] (omega arith) tt)
          (subst (λ j. GoodAt j f) (omega arith) g)
    | inr w ↦ ended n e l h k g w
  ]

  events-GoodAt :
      (n : ℕ) (l : List Effect)
      → closes (before_last l) ≡ 0
      → closes l ≤ n
      → GoodAt (closes l) f
      → GoodAt 0 (handle_all env paddr auri (new_events n l []) f)
  events-GoodAt n [] h k g =
      handle_all-GoodAt 0 env paddr auri _ f (new_events-Others n [] [] refl tt) g
  events-GoodAt n (e ∷ l) h k g = last-GoodAt n e l h (omega arith) g

-- What an input of a call makes of it, with the events that it raised handled.
pub deliver-Good :
    (env : UaEnv) (paddr auri : Bytes) (f : Focus) (c d : Call)
    → GoodAt (closes d.log) (record f { cur = some d })
    → closes c.log ≡ 0
    → Grows c d
    → ClosesLast d
    → Good (deliver env paddr auri f c d)
unfolding deliver
deliver-Good env paddr auri f c d g h grows last = unfocus-Good _ (
    events-GoodAt env paddr auri _ (length d.log - length c.log) d.log last
      (omega (arith, grows, h)) g)
