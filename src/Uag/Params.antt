-- ===== src/Uag/Params.antt =====
-- The parameters of an address of a user agent (jni/baresip/src/ua.c, struct ua_prm,
-- sip_params_decode, answermode_decode, media_decode, stunsrv_decode). The decoders of parameters and
-- addresses, and the copies of strings, are the library's.
use bare_sip_android.Prelude.{
  ℕ, ◌+◌, ◌%◌, Bool, Option, none, some, List, [], ◌∷◌, length, take, ◌==◌, bit_or, if◌then◌else◌,
  Bytes, einval,
}
use bare_sip_android.Agent.State.{Answermode, manual, early_media, auto_answer}
use bare_sip_android.Registry.Aucodec.{Aucodec}
use bare_sip_android.Registry.Device.{Vidcodec}
use bare_sip_android.Registry.Driver.{Driver, mnat_find, menc_find}

-- the names of the parameters; that of an outbound proxy may have a number
pub data Param : Type 0 where
  p_regint p_regq p_sipnat p_auth_user p_answermode p_medianat p_mediaenc p_ptime p_rtpkeep
        p_stunserver p_audio_codecs p_video_codecs :
      Param
  p_outbound : Option ℕ → Param

pub record UaPrm : Type 0 where
  pub answermode : Answermode
  pub aucodecs : Bool
  pub aucodecl : List Aucodec
  pub auth_user : Option Bytes
  pub auth_pass : Option Bytes
  pub menc : Option (Driver Unit)
  pub mnat : Option (Driver Unit)
  pub outbound1 : Option Bytes
  pub outbound2 : Option Bytes
  pub ptime : ℕ
  pub regint : ℕ
  pub regq : Option Bytes
  pub rtpkeep : Option Bytes
  pub sipnat : Option Bytes
  pub stun_user : Option Bytes
  pub stun_pass : Option Bytes
  pub stun_host : Option Bytes
  pub stun_port : ℕ
  pub vidcodecs : Bool
  pub vidcodecl : List Vidcodec

-- the parts of a URI that are read
pub record UriParts : Type 0 where
  pub scheme : Bytes
  pub user : Bytes
  pub password : Bytes
  pub host : Bytes
  pub port : ℕ

-- `param` is sip_param_decode for the parameters of the address, `uri` its URI; `dup_err` is the error
-- of a copy of a string.
pub record PrmEnv : Type 0 where
  pub param : Param → Option Bytes
  pub uri : UriParts
  pub uri_decode : Bytes → Option UriParts
  pub casecmp : Bytes → Bytes → ℕ
  pub u32 : Bytes → ℕ
  pub rand : ℕ
  pub dup_err : Bytes → ℕ
  pub mnatl : List (Driver Unit)
  pub mencl : List (Driver Unit)

-- REG_INTERVAL
abbrev pub reg_interval : ℕ
reg_interval = 3600

-- pl_strdup, which sets the pointer where it succeeds
abbrev pub strdup : PrmEnv → Bytes → Option Bytes → ℕ × Option Bytes
strdup env s old = if env.dup_err s == 0 then (0, some s) else (env.dup_err s, old)

-- where there is one
abbrev pub strdup_param : PrmEnv → Option Bytes → Option Bytes → ℕ × Option Bytes
strdup_param env none old = (0, old)
strdup_param env (some s) old = strdup env s old

abbrev or_compat : PrmEnv → Option Bytes → ℕ × Option Bytes
or_compat env none = strdup_param env (env.param (p_outbound none)) none
or_compat env (some ob) = (0, some ob)

abbrev or_default : Option Bytes → Bytes → Bytes
or_default none d = d
or_default (some s) d = s

abbrev interval : PrmEnv → Option Bytes → ℕ
interval env none = reg_interval + env.rand % 256
interval env (some s) = env.u32 s

unfoldable pub sip_params_decode : PrmEnv → UaPrm → ℕ × UaPrm
sip_params_decode env prm =
    let regint = interval env (env.param p_regint) in
    let (e1, regq) = strdup_param env (env.param p_regq) none in
    let (e2, ob1) = strdup_param env (env.param (p_outbound (some 1))) prm.outbound1 in
    let (e3, ob2) = strdup_param env (env.param (p_outbound (some 2))) prm.outbound2 in
    let (e4, compat) = or_compat env ob1 in
    let (e5, sipnat) = strdup_param env (env.param p_sipnat) prm.sipnat in
    let (e6, auth_user) =
      strdup env (or_default (env.param p_auth_user) env.uri.user) prm.auth_user in
    (
      bit_or (bit_or (bit_or (bit_or (bit_or e1 e2) e3) e4) e5) e6,
      record prm {
        regint = regint;
        regq = regq;
        outbound1 = compat;
        outbound2 = ob2;
        sipnat = sipnat;
        auth_user = auth_user;
      },
    )

abbrev pub word_manual : Bytes
word_manual = b'm' ∷ b'a' ∷ b'n' ∷ b'u' ∷ b'a' ∷ b'l' ∷ []

abbrev pub word_early : Bytes
word_early = b'e' ∷ b'a' ∷ b'r' ∷ b'l' ∷ b'y' ∷ []

abbrev pub word_auto : Bytes
word_auto = b'a' ∷ b'u' ∷ b't' ∷ b'o' ∷ []

abbrev pub word_stun : Bytes
word_stun = b's' ∷ b't' ∷ b'u' ∷ b'n' ∷ []

abbrev pub word_outbound : Bytes
word_outbound = b'o' ∷ b'u' ∷ b't' ∷ b'b' ∷ b'o' ∷ b'u' ∷ b'n' ∷ b'd' ∷ []

abbrev mode_of : (Bytes → Bytes → ℕ) → Bytes → Answermode
mode_of casecmp s =
    if casecmp s word_manual == 0
    then manual
    else if casecmp s word_early == 0
    then early_media
    else if casecmp s word_auto == 0
    then auto_answer
    else manual

unfoldable pub answermode_decode : PrmEnv → UaPrm → UaPrm
answermode_decode env prm = elim (env.param p_answermode) [
  | none ↦ prm
  | some s ↦ record prm { answermode = mode_of env.casecmp s }
]

-- names of drivers are cut to 63 bytes
abbrev set_mnat : PrmEnv → Option Bytes → UaPrm → UaPrm
set_mnat env none prm = prm
set_mnat env (some s) prm = record prm { mnat = mnat_find env.casecmp (take 63 s) env.mnatl }

abbrev set_menc : PrmEnv → Option Bytes → UaPrm → UaPrm
set_menc env none prm = prm
set_menc env (some s) prm = record prm { menc = menc_find env.casecmp (take 63 s) env.mencl }

abbrev set_ptime : PrmEnv → Option Bytes → UaPrm → ℕ × UaPrm
set_ptime env none prm = (0, prm)
set_ptime env (some s) prm =
    (if env.u32 s == 0 then einval else 0, record prm { ptime = env.u32 s })

unfoldable pub media_decode : PrmEnv → UaPrm → ℕ × UaPrm
unfolding mnat_find menc_find
media_decode env prm =
    let prm' = set_menc env (env.param p_mediaenc) (set_mnat env (env.param p_medianat) prm) in
    let (perr, timed) = set_ptime env (env.param p_ptime) prm' in
    let (err, rtpkeep) = strdup_param env (env.param p_rtpkeep) timed.rtpkeep in
    if perr == 0 then (err, record timed { rtpkeep = rtpkeep }) else (perr, timed)

abbrev no_uri : UriParts
no_uri = record { scheme = []; user = []; password = []; host = []; port = 0 }

abbrev or_no_uri : Option UriParts → UriParts
or_no_uri none = no_uri
or_no_uri (some u) = u

-- pl_isset
abbrev first_set : Bytes → Bytes → Bytes
first_set s d = if length s == 0 then d else s

abbrev stun_from : PrmEnv → UriParts → UaPrm → ℕ × UaPrm
stun_from env u prm =
    let (e1, user) = strdup env (first_set u.user env.uri.user) prm.stun_user in
    let (e2, pass) = strdup env (first_set u.password env.uri.password) prm.stun_pass in
    let (e3, host) = strdup env (first_set u.host env.uri.host) prm.stun_host in
    (
      bit_or (bit_or e1 e2) e3,
      record prm { stun_user = user; stun_pass = pass; stun_host = host; stun_port = u.port },
    )

abbrev stun_with : PrmEnv → Option Bytes → UaPrm → ℕ × UaPrm
stun_with env none prm = stun_from env no_uri prm
stun_with env (some srv) prm =
    let u = or_no_uri (env.uri_decode srv) in
    if env.casecmp u.scheme word_stun == 0 then stun_from env u prm else (einval, prm)

unfoldable pub stunsrv_decode : PrmEnv → UaPrm → ℕ × UaPrm
stunsrv_decode env prm = stun_with env (env.param p_stunserver) prm
