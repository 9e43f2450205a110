-- ===== src/RtpKeep/Periods.antt =====
-- When keepalives are sent (jni/baresip/src/rtpkeep.c).
use bare_sip_android.Prelude.{
  ℕ, zero, suc, ◌+◌, ◌≤◌, ◌<◌, ◌≡◌, refl, ap, ap₂, Bool, true, false, Option, none, some, List, [],
  ◌∷◌, arith, Bytes, Bool-cases, subst, ◌==◌, inl, inr, if◌then◌else◌,
}
use bare_sip_android.RtpKeep.Timer.{
  Rtpkeep, Keepalive, KeepEnv, pt_dyn_min, find_unused_below, find_unused_pt, send_keepalive,
  send_dyna, timeout, rtpkeep_alloc, rtpkeep_refresh, zero_packet, stun_binding, dyna_packet,
  method_zero, method_stun, method_dyna,
}

-- The packets of a period, by their time stamps, each of which refreshes the object.
unfoldable pub refreshes : List ℕ → Option Rtpkeep → Option Rtpkeep
refreshes [] o = o
refreshes (ts ∷ tss) o = refreshes tss (rtpkeep_refresh ts o)

module _ (env : KeepEnv) where
  abbrev expire : Option Rtpkeep → Option Rtpkeep × List Keepalive
  expire none = (none, [])
  expire (some rk) = let (rk', sent) = timeout env rk in (some rk', sent)

  -- Periods with the packets of the stream in each, and a timeout at the end of each: what is sent
  -- at each timeout.
  unfoldable pub periods : List (List ℕ) → Option Rtpkeep → List (List Keepalive)
  periods [] o = []
  periods (p ∷ ps) o =
      let (o', sent) = expire (refreshes p o) in let later = periods ps o' in sent ∷ later

abbrev pub last_ts : ℕ → List ℕ → ℕ
last_ts ts [] = ts
last_ts ts (t ∷ tss) = last_ts t tss

abbrev pub is_quiet : List ℕ → Bool
is_quiet [] = true
is_quiet (_ ∷ _) = false

-- the packet of a dynamic payload type, where one is free
abbrev pub dyna : Option ℕ → ℕ → List Keepalive
dyna none ts = []
dyna (some pt) ts = dyna_packet pt ts ∷ []

-- The keepalive of a method, given the free payload type and the last time stamp: none of a method
-- that is not known, and none of the methods that make a packet where there is no memory for it.
abbrev pub due : KeepEnv → Option ℕ → Bytes → ℕ → List Keepalive
due env free m ts =
    if env.casecmp m method_zero == 0
    then if env.mbuf_ok then zero_packet ∷ [] else []
    else if env.casecmp m method_stun == 0
    then stun_binding ∷ []
    else if env.casecmp m method_dyna == 0
    then if env.mbuf_ok then dyna free ts else []
    else []

-- What is expected at each timeout: nothing behind a period with packets, and a keepalive with the
-- last time stamp behind a quiet one.
abbrev pub expected : KeepEnv → Option ℕ → Bytes → ℕ → List (List ℕ) → List (List Keepalive)
expected env free method ts [] = []
expected env free method ts ([] ∷ ps) = due env free method ts ∷ expected env free method ts ps
expected env free method ts ((t ∷ p) ∷ ps) = [] ∷ expected env free method (last_ts t p) ps

refreshes-some :
    (p : List ℕ) (m : Bytes) (ts tmr : ℕ)
    → refreshes p (some (record { method = m; ts = ts; flag = true; tmr = tmr }))
      ≡ some (record { method = m; ts = last_ts ts p; flag = true; tmr = tmr })
unfolding refreshes rtpkeep_refresh
refreshes-some [] m ts tmr = refl
refreshes-some (t ∷ p) m ts tmr = refreshes-some p m t tmr

send_dyna-dyna : (env : KeepEnv) (ts : ℕ) (o : Option ℕ) → (send_dyna env ts o).0 ≡ dyna o ts
send_dyna-dyna env ts none = refl
send_dyna-dyna env ts (some pt) = refl

send_keepalive-due :
    (env : KeepEnv) (m : Bytes) (ts tmr : ℕ)
    → (send_keepalive env (record { method = m; ts = ts; flag = false; tmr = tmr })).0
      ≡ due env (find_unused_pt env.used) m ts
unfolding send_keepalive
send_keepalive-due env m ts tmr = ground (arith, send_dyna-dyna env ts (find_unused_pt env.used))

periods-expected :
    (env : KeepEnv) (m : Bytes) (ps : List (List ℕ)) (ts tmr : ℕ)
    → periods env ps (some (record { method = m; ts = ts; flag = false; tmr = tmr }))
      ≡ expected env (find_unused_pt env.used) m ts ps
unfolding periods refreshes timeout rtpkeep_refresh
periods-expected env m [] ts tmr = refl
periods-expected env m ([] ∷ ps) ts tmr =
    ap₂ (◌∷◌) (send_keepalive-due env m ts 15000) (periods-expected env m ps ts 15000)
periods-expected env m ((t ∷ p) ∷ ps) ts tmr =
    rw (refreshes-some p m t tmr) (ap (◌∷◌ []) (periods-expected env m ps (last_ts t p) 15000))

-- The result of a search for an unused type among `n` types from the first dynamic one on.
abbrev pub Found : (ℕ → Bool) → ℕ → Option ℕ → Type 0
Found used n none = (q : ℕ) → pt_dyn_min ≤ q → q < pt_dyn_min + n → used q ≡ true
Found used n (some pt) =
    (used pt ≡ false)
    × (pt_dyn_min ≤ pt)
    × (pt < pt_dyn_min + n)
    × ((q : ℕ) → pt < q → q < pt_dyn_min + n → used q ≡ true)

-- one more type that is used
used-suc :
    (used : ℕ → Bool) (m q : ℕ)
    → used m ≡ true
    → (q < m → used q ≡ true)
    → q < m + 1
    → used q ≡ true
used-suc used m q e below hi = elim (Bool-cases (q == m)) [
  | inl same ↦ let eq : m ≡ q = ground arith in subst (λ x. used x ≡ true) eq e
  | inr other ↦ below (ground arith)
]

Found-suc :
    (used : ℕ → Bool) (n : ℕ) (o : Option ℕ)
    → used (pt_dyn_min + n) ≡ true
    → Found used n o
    → Found used (suc n) o
Found-suc used n none e f =
    λ q lo hi. used-suc used (pt_dyn_min + n) q e (f q lo) (omega (arith, hi))
Found-suc used n (some pt) e (unused, lo, hi, f) = (
  unused,
  lo,
  omega (arith, hi),
  λ q lt le. used-suc used (pt_dyn_min + n) q e (f q lt) (omega (arith, le)),
)

find_unused_below-Found : (used : ℕ → Bool) (n : ℕ) → Found used n (find_unused_below used n)
unfolding find_unused_below
find_unused_below-Found used zero = λ q lo hi. absurd (omega (arith, lo, hi))
find_unused_below-Found used (suc n) = elim (Bool-cases (used (pt_dyn_min + n))) [
  | inl e ↦ rw e (Found-suc used n (find_unused_below used n) e (find_unused_below-Found used n))
  | inr e ↦ rw e (e, omega arith, omega arith, λ q a b. absurd (omega (arith, a, b)))
]

-- The search for a dynamic payload type gives the greatest of 96 to 127 that has no format, and
-- nothing only if each of them has one.
find_unused_pt-Found : (used : ℕ → Bool) → Found used 32 (find_unused_pt used)
unfolding find_unused_pt
find_unused_pt-Found used = find_unused_below-Found used 32

-- An object that rtpkeep_alloc made sends nothing at a timeout behind a period with RTP packets,
-- and at every other timeout the keepalive of its method, whatever came of the keepalives before: a
-- zero packet, a STUN binding, or an RTP packet with the time stamp of the last packet and the
-- greatest dynamic payload type that is not used, where there is one; nothing where a packet of the
-- first or the last kind has no memory, and nothing of any other method.
pub rtpkeep_alloc-periods :
    (env : KeepEnv) (dup : ℕ) (method : Bytes) (ps : List (List ℕ)) {o : Option Rtpkeep}
    → rtpkeep_alloc true true dup method ≡ (o, 0)
    → (free : Option ℕ) × (Found env.used 32 free
        × (periods env ps o ≡ expected env free method 0 ps))
unfolding rtpkeep_alloc
rtpkeep_alloc-periods env dup method ps {o} e =
    let made : o ≡ some (record { method = method; ts = 0; flag = false; tmr = 20 }) =
      ground arith in
    (
      find_unused_pt env.used,
      (find_unused_pt-Found env.used, rw made (periods-expected env method ps 0 20)),
    )
