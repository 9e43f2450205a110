-- ===== src/Uag/Routes.antt =====
-- The registrations of a user agent that is made (jni/baresip/src/ua.c, ua_alloc).
use bare_sip_android.Prelude.{
  ◌≢◌, ℕ, ◌≡◌, refl, sym, ap₂, subst, ◌&&◌, Bool, true, false, not, Option, none, some, List, [],
  ◌∷◌, ◌++◌, map, length, All, ◌==◌, if◌then◌else◌, Bytes, arith, enomem, Bool-cases, inl, inr,
}
use bare_sip_android.Uag.State.{UaReg}
use bare_sip_android.Uag.Register.{has_route}
use bare_sip_android.Uag.Params.{
  UaPrm, p_audio_codecs, p_video_codecs, sip_params_decode, answermode_decode,
}
use bare_sip_android.Uag.Codecs.{TakesSome, audio_codecs_decode_ends, video_codecs_decode_ends}
use bare_sip_android.Uag.Alloc.{
  FullUa, UaAllocEnv, add_registrations, uareg_add, registrations_by, set_of, wants_outbound,
  register_clients, finish_alloc, and_codecs, decode_params, zero_prm, set_password,
  password_prompt, ua_alloc,
}

-- the ids of the registrations: of each outbound proxy that is set, or 0
abbrev pub ids_of : Bool → Bool → Bool → List ℕ
ids_of true one two = (if one then 1 ∷ [] else []) ++ (if two then 2 ∷ [] else [])
ids_of false one two = 0 ∷ []

abbrev pub Routed : Bool → Bool → List UaReg → Type 0
Routed one two regl = All (λ r. has_route (one ∷ two ∷ []) r ≡ not (r.id == 0)) regl

-- for what is wanted and the two proxies
abbrev pub RoutedBy : Bool → Option Bytes → Option Bytes → List UaReg → Type 0
RoutedBy wants one two regl =
    (map UaReg.id regl ≡ ids_of wants (set_of one) (set_of two))
    × Routed (set_of one) (set_of two) regl

registrations-RoutedBy :
    (mem wants uuid : Bool) (one two : Option Bytes)
    → (registrations_by mem wants uuid one two).0 ≡ 0
    → RoutedBy wants one two (registrations_by mem wants uuid one two).1
unfolding uareg_add
registrations-RoutedBy true false uuid none none h = ground arith
registrations-RoutedBy true false uuid none (some t) h = ground arith
registrations-RoutedBy true false uuid (some o) none h = ground arith
registrations-RoutedBy true false uuid (some o) (some t) h = ground arith
registrations-RoutedBy false false uuid one two h = ground (arith, h)
registrations-RoutedBy mem true false one two h = ground (arith, h)
registrations-RoutedBy mem true true none none h = ground (arith, h)
registrations-RoutedBy true true true none (some t) h = ground (arith, h)
registrations-RoutedBy false true true none (some t) h = ground (arith, h)
registrations-RoutedBy true true true (some o) none h = ground (arith, h)
registrations-RoutedBy true true true (some o) (some t) h = ground (arith, h)
registrations-RoutedBy false true true (some o) two h = ground (arith, h)

==→≡ : (n : ℕ) → n == 0 ≡ true → n ≡ 0
==→≡ n e = ground (arith, e)

-- what is said of a user agent that is made
abbrev pub RoutedUa : UaAllocEnv → Bytes → FullUa → Type 0
RoutedUa env aor (ua, prm) =
    (map UaReg.id ua.regl
      ≡ ids_of (wants_outbound (env.prm aor) prm) (set_of prm.outbound1) (set_of prm.outbound2))
    × All (λ r. has_route ua.outbound r ≡ not (r.id == 0)) ua.regl

abbrev pub RoutedResult : UaAllocEnv → Bytes → ℕ × Option FullUa → Type 0
RoutedResult env aor (err, none) = err ≢ 0
RoutedResult env aor (err, some ua) = (err ≡ 0) × RoutedUa env aor ua

clients-RoutedResult :
    (env : UaAllocEnv) (aor : Bytes) (perr : ℕ) (prm : UaPrm)
    → RoutedResult env aor (register_clients env aor (perr, prm))
unfolding add_registrations
clients-RoutedResult env aor perr prm = elim (Bool-cases (perr == 0)) [
  | inl z ↦ elim (Bool-cases ((add_registrations env (env.prm aor) prm).0 == 0)) [
    | inl y ↦
        rw (z, y)
          (
            ==→≡ _ y,
            registrations-RoutedBy env.reg_mem (wants_outbound (env.prm aor) prm)
                (not (length env.uuid == 0)) prm.outbound1 prm.outbound2 (==→≡ _ y),
          )
    | inr y ↦ rw (z, y) (ground (arith, y))
  ]
  | inr z ↦ rw (z) (ground (arith, z))
]

-- there is a result, and what is said of it
abbrev pub Ends : UaAllocEnv → Bytes → Option (ℕ × Option FullUa) → Type 0
Ends env aor o = (r : ℕ × Option FullUa) × ((o ≡ some r) × RoutedResult env aor r)

finish-Ends :
    (env : UaAllocEnv) (aor : Bytes) (err : ℕ) (prm : UaPrm)
    → Ends env aor (finish_alloc env aor (some (err, prm)))
unfolding password_prompt
finish-Ends env aor err prm = elim (Bool-cases (err == 0)) [
  | inl z ↦
      let (perr, prm') = set_password (env.prm aor) env.line prm in
      (register_clients env aor (perr, prm'), (rw (z) refl, clients-RoutedResult env aor perr prm'))
  | inr z ↦ ((err, none), (rw (z) refl, ground (arith, z)))
]

module _ (env : UaAllocEnv) (takes : TakesSome env.codecs.csl) (aor : Bytes) where
  decode_params_ends : (prm : UaPrm) → (r : ℕ × UaPrm) × (decode_params env aor prm ≡ some r)
  decode_params_ends prm =
      let e = env.prm aor in
      let (audio, a) =
        audio_codecs_decode_ends env.codecs takes (env.audio_exists aor) (e.param p_audio_codecs) in
      let (video, v) =
        video_codecs_decode_ends env.codecs takes (env.video_exists aor) (e.param p_video_codecs) in
      let (e1, prm1) = sip_params_decode e prm in
      (_, ap₂ (and_codecs env aor e1 (answermode_decode e prm1)) a v)

  decoded-Ends :
      (o : Option (ℕ × UaPrm))
      → (r : ℕ × UaPrm) × (o ≡ some r)
      → Ends env aor (finish_alloc env aor o)
  decoded-Ends o ((err, prm), e) =
      subst (λ o. Ends env aor (finish_alloc env aor o)) (sym e) (finish-Ends env aor err prm)

  -- Where a match of a list of codecs takes some of it, a user agent is made for an address or
  -- there is an error. One that is made has a registration of its own for each outbound proxy that
  -- is set, in their order, if its parameters want that, and otherwise one; and each but that one
  -- goes by the proxy of its number.
  pub ua_alloc-Ends : Ends env aor (ua_alloc env (some aor))
  unfolding ua_alloc
  ua_alloc-Ends = elim (Bool-cases (env.mem && (env.prm_mem && env.dial_mem))) [
    | inl m ↦ elim (Bool-cases (env.aor_err aor == 0)) [
      | inl z ↦ rw (m, z) (decoded-Ends _ (decode_params_ends zero_prm))
      | inr z ↦ ((env.aor_err aor, none), (rw (m, z) refl, ground (arith, z)))
    ]
    | inr m ↦ ((enomem, none), (rw (m) refl, omega arith))
  ]
