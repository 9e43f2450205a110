-- ===== src/Tests/Keepalives.antt =====
-- Examples for RTP keepalives (jni/baresip/src/rtpkeep.c).
use bare_sip_android.Prelude.{
  ℕ, ◌≡◌, refl, Bool, true, false, ◌||◌, Option, some, [], ◌∷◌, ◌==◌, Bytes,
}
use bare_sip_android.RtpKeep.Timer.{KeepEnv, method_dyna, rtpkeep_alloc}
use bare_sip_android.RtpKeep.Periods.{periods, expected, Found, rtpkeep_alloc-periods}

abbrev same : Bytes → Bytes → ℕ
same [] [] = 0
same (a ∷ x) (b ∷ y) = let rest = same x y in elim (a == b) [ true ↦ rest | false ↦ 1 ]
same _ _ = 1

abbrev taken : ℕ → Bool
taken pt = pt == 127 || pt == 126

abbrev keep_env : KeepEnv
keep_env = record { casecmp = same; mbuf_ok = true; used = taken; send = λ k. 0 }

allocated :
    rtpkeep_alloc true true 0 method_dyna
    ≡ (some (record { method = method_dyna; ts = 0; flag = false; tmr = 20 }), 0)
unfolding rtpkeep_alloc
allocated = refl

rtpkeep_alloc-periods_example :
    (free : Option ℕ) × (Found taken 32 free
      × (periods keep_env
            ([] ∷ (160 ∷ 320 ∷ []) ∷ [] ∷ [])
            (some (record { method = method_dyna; ts = 0; flag = false; tmr = 20 }))
          ≡ expected keep_env free method_dyna 0 ([] ∷ (160 ∷ 320 ∷ []) ∷ [] ∷ [])))
rtpkeep_alloc-periods_example =
    rtpkeep_alloc-periods keep_env 0 method_dyna ([] ∷ (160 ∷ 320 ∷ []) ∷ [] ∷ []) allocated
