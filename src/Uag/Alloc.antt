-- ===== src/Uag/Alloc.antt =====
-- How a user agent is made and added (jni/baresip/src/ua.c, ua_alloc, ua_add and what they call). A
-- result of `none` is a lack of fuel of the lists of codecs.
use bare_sip_android.Prelude.{
  ℕ, Bool, true, false, not, ◌&&◌, Option, none, some, List, [], ◌∷◌, ◌++◌, length, take, ◌==◌,
  bit_or, if◌then◌else◌, Bytes, einval, enomem, enosys,
}
use bare_sip_android.Agent.State.{manual}
use bare_sip_android.Registry.Aucodec.{Aucodec}
use bare_sip_android.Registry.Device.{Vidcodec}
use bare_sip_android.Uag.State.{UaReg, RegUa}
use bare_sip_android.Uag.Register.{RegEnv, ua_start}
use bare_sip_android.Uag.Codecs.{CodecsEnv, audio_codecs_decode, video_codecs_decode}
use bare_sip_android.Uag.Params.{
  UaPrm, PrmEnv, p_audio_codecs, p_video_codecs, strdup, word_outbound, sip_params_decode,
  answermode_decode, media_decode, stunsrv_decode,
}

-- a user agent with its parameters
abbrev pub FullUa : Type 0
FullUa = RegUa × UaPrm

-- The address of record as it is decoded, or an error; `line` is what the user types for a password,
-- with its newline, `exists` is sip_param_exists.
pub record UaAllocEnv : Type 0 where
  pub mem : Bool
  pub prm_mem : Bool
  pub dial_mem : Bool
  pub reg_mem : Bool
  pub aor_err : Bytes → ℕ
  pub cuser : Bytes
  pub local_uri : Bytes → Bytes
  pub prm : Bytes → PrmEnv
  pub audio_exists : Bytes → Bool
  pub video_exists : Bytes → Bool
  pub codecs : CodecsEnv
  pub line : Bytes
  pub uuid : Bytes
  pub af : ℕ

-- mem_zalloc
abbrev pub zero_prm : UaPrm
zero_prm = record {
  answermode = manual;
  aucodecs = false;
  aucodecl = [];
  auth_user = none;
  auth_pass = none;
  menc = none;
  mnat = none;
  outbound1 = none;
  outbound2 = none;
  ptime = 0;
  regint = 0;
  regq = none;
  rtpkeep = none;
  sipnat = none;
  stun_user = none;
  stun_pass = none;
  stun_host = none;
  stun_port = 0;
  vidcodecs = false;
  vidcodecl = [];
}

abbrev pub is_newline : ℕ → Bool
is_newline c = c == 10

abbrev pub has_newline : Bytes → Bool
has_newline [] = false
has_newline (c ∷ cs) = if is_newline c then true else has_newline cs

-- fgets into 64 bytes; the newline stays
unfoldable pub password_prompt : PrmEnv → Bytes → UaPrm → ℕ × UaPrm
password_prompt env line prm =
    let pwd = take 63 line in
    let (err, pass) = strdup env pwd prm.auth_pass in
    let prm' = record prm { auth_pass = pass } in
    if not (err == 0) then (err, prm') else (if has_newline pwd then 0 else einval, prm')

abbrev pub set_password : PrmEnv → Bytes → UaPrm → ℕ × UaPrm
set_password env line prm =
    let (err, pass) = strdup env env.uri.password prm.auth_pass in
    if length env.uri.password == 0
    then password_prompt env line prm
    else (err, record prm { auth_pass = pass })

abbrev with_stun : PrmEnv → UaPrm → ℕ × UaPrm
with_stun env prm = elim prm.mnat [ none ↦ (0, prm) | some mnat ↦ stunsrv_decode env prm ]

-- the parts of the parameters behind the codecs; `e1` is the error before
abbrev pub and_codecs :
    UaAllocEnv
    → Bytes
    → ℕ
    → UaPrm
    → Option (Bool × (List Aucodec × ℕ))
    → Option (Bool × (List Vidcodec × ℕ))
    → Option (ℕ × UaPrm)
and_codecs env aor e1 prm none video = none
and_codecs env aor e1 prm (some audio) none = none
and_codecs env aor e1 prm (some (aucodecs, (aucodecl, e2))) (some (vidcodecs, (vidcodecl, e3))) =
    let (e4, prm4) = media_decode (env.prm aor) (record prm {
      aucodecs = aucodecs;
      aucodecl = aucodecl;
      vidcodecs = vidcodecs;
      vidcodecl = vidcodecl;
    }) in
    let (e5, prm5) = with_stun (env.prm aor) prm4 in
    some (bit_or (bit_or (bit_or (bit_or e1 e2) e3) e4) e5, prm5)

-- `err |=` for each part of the parameters
abbrev pub decode_params : UaAllocEnv → Bytes → UaPrm → Option (ℕ × UaPrm)
decode_params env aor prm =
    let e = env.prm aor in
    let (e1, prm1) = sip_params_decode e prm in
    let prm2 = answermode_decode e prm1 in
    and_codecs env aor e1 prm2
      (audio_codecs_decode env.codecs (env.audio_exists aor) (e.param p_audio_codecs))
      (video_codecs_decode env.codecs (env.video_exists aor) (e.param p_video_codecs))

unfoldable pub uareg_add : Bool → ℕ → List UaReg → ℕ × List UaReg
uareg_add mem id regl =
    if mem
    then (0, regl ++ record { id = id; reg = false; sipfd = none; srv = none; scode = 0 } ∷ [])
    else (enomem, regl)

abbrev add_set : Bool → ℕ → Option Bytes → List UaReg → ℕ × List UaReg
add_set mem id none regl = (0, regl)
add_set mem id (some proxy) regl = uareg_add mem id regl

abbrev pub set_of : Option Bytes → Bool
set_of none = false
set_of (some s) = true

abbrev pub wants_outbound : PrmEnv → UaPrm → Bool
wants_outbound env prm = elim prm.sipnat [
  | none ↦ false
  | some s ↦ env.casecmp s word_outbound == 0
]

-- the registrations: one for each outbound proxy, or one
abbrev pub registrations_by : Bool → Bool → Bool → Option Bytes → Option Bytes → ℕ × List UaReg
registrations_by mem false uuid one two = uareg_add mem 0 []
registrations_by mem true false one two = (enosys, [])
registrations_by mem true true one two =
    let (err, regl) = add_set mem 1 one [] in
    if err == 0 then add_set mem 2 two regl else (err, regl)

unfoldable pub add_registrations : UaAllocEnv → PrmEnv → UaPrm → ℕ × List UaReg
unfolding uareg_add
add_registrations env e prm =
    registrations_by env.reg_mem (wants_outbound e prm) (not (length env.uuid == 0)) prm.outbound1
      prm.outbound2

abbrev pub made_ua : UaAllocEnv → Bytes → UaPrm → List UaReg → FullUa
made_ua env aor prm regl = (
  record {
    regl = regl;
    regint = prm.regint;
    outbound = set_of prm.outbound1 ∷ set_of prm.outbound2 ∷ [];
    cuser = env.cuser;
    user = (env.prm aor).uri.user;
    local_uri = env.local_uri aor;
    n_bindings = 0;
    af = env.af;
    events = [];
  },
  prm,
)

abbrev pub register_clients : UaAllocEnv → Bytes → ℕ × UaPrm → ℕ × Option FullUa
register_clients env aor (perr, prm) =
    let (err, regl) = add_registrations env (env.prm aor) prm in
    if not (perr == 0)
    then (perr, none)
    else (err, if err == 0 then some (made_ua env aor prm regl) else none)

abbrev pub finish_alloc : UaAllocEnv → Bytes → Option (ℕ × UaPrm) → Option (ℕ × Option FullUa)
finish_alloc env aor none = none
finish_alloc env aor (some (err, prm)) = some (
    if err == 0
    then register_clients env aor (set_password (env.prm aor) env.line prm)
    else (err, none))

-- the error, and the user agent where there is none
unfoldable pub ua_alloc : UaAllocEnv → Option Bytes → Option (ℕ × Option FullUa)
unfolding sip_params_decode answermode_decode audio_codecs_decode video_codecs_decode media_decode
    stunsrv_decode password_prompt add_registrations
ua_alloc env none = some (einval, none)
ua_alloc env (some aor) =
    if not (env.mem && (env.prm_mem && env.dial_mem))
    then some (enomem, none)
    else if not (env.aor_err aor == 0)
    then some (env.aor_err aor, none)
    else finish_alloc env aor (decode_params env aor zero_prm)

-- the list of user agents, and the place of the current one
pub record Uags : Type 0 where
  pub ual : List FullUa
  pub cur : Option ℕ

abbrev start_last : RegEnv → FullUa → Uags → ℕ × Uags
start_last renv (ua, prm) g =
    let (err, ua') = ua_start renv ua in
    (err, record { ual = g.ual ++ (ua', prm) ∷ []; cur = some (length g.ual) })

-- A user agent that cannot be started stays in the list.
unfoldable pub ua_add : UaAllocEnv → RegEnv → Bytes → Uags → Option (ℕ × Uags)
unfolding ua_alloc ua_start
ua_add env renv addr g = elim (ua_alloc env (some (take 511 addr))) [
  | none ↦ none
  | some (err, none) ↦ some (err, g)
  | some (err, some ua) ↦ some (start_last renv ua g)
]
