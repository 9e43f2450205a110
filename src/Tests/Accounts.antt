-- ===== src/Tests/Accounts.antt =====
-- Examples for user agents that are made, their requests and the SIP stack (jni/baresip/src/ua.c).
use bare_sip_android.Prelude.{
  ℕ, ◌≤◌, ◌≡◌, refl, ap, Bool, true, false, Option, none, some, [], ◌∷◌, length, ◌==◌,
  if◌then◌else◌, Bytes, arith,
}
use bare_sip_android.Registry.Aucodec.{Aucodec}
use bare_sip_android.Uag.State.{RegUa}
use bare_sip_android.Uag.Register.{RegEnv, ua_start_all}
use bare_sip_android.Uag.Find.{ua_find}
use bare_sip_android.Uag.Codecs.{CslMatch, CodecsEnv, matched, TakesSome}
use bare_sip_android.Uag.Collected.{Collected}
use bare_sip_android.Uag.Params.{
  Param, p_outbound, p_sipnat, p_audio_codecs, UriParts, word_outbound,
}
use bare_sip_android.Uag.Alloc.{UaAllocEnv, ua_alloc}
use bare_sip_android.Uag.Routes.{Ends, ua_alloc-Ends}
use bare_sip_android.Uag.Requests.{
  SipMsg, ReqEnv, word_options, word_message, request_handler, mute_options, replies,
  request_handler-replies,
}
use bare_sip_android.Uag.Stack.{
  Stack, StackEnv, sip_transp_add, add_transp_af, ua_add_transp, ua_setup_transp, ua_init,
  resume_stack, ua_stack_resume,
}
use bare_sip_android.Uag.Listeners.{listeners, listening, ua_stack_resume-listeners}

-- 0 exactly for equal bytes
abbrev strcmp : Bytes → Bytes → ℕ
strcmp [] [] = 0
strcmp [] (b ∷ bs) = 1
strcmp (a ∷ rest) [] = 1
strcmp (a ∷ rest) (b ∷ bs) = if a == b then strcmp rest bs else 1

-- the names between commas
abbrev name_of : Bytes → Bytes
name_of [] = []
name_of (c ∷ cs) = if c == b',' then [] else c ∷ name_of cs

abbrev match_of : Bytes → CslMatch
match_of pl = record { ws = 0; val = name_of pl; ws2 = 0; cma = 1 }

abbrev csl : Bytes → Option CslMatch
csl pl = if length (name_of pl) == 0 then none else some (match_of pl)

taken : Option CslMatch → ℕ
taken none = 0
taken (some m) = matched m

takes_at :
    (b : Bool) (k m : CslMatch)
    → (if b then none else some k) ≡ some m
    → 1 ≤ matched k
    → 1 ≤ matched m
unfolding taken
takes_at true k m e h = ground (arith, e)
takes_at false k m e h = omega (arith, h, ap taken e)

takes : TakesSome csl
takes [] m e = ground (arith, e)
takes (c ∷ cs) m e =
    (takes_at (length (name_of (c ∷ cs)) == 0) (match_of (c ∷ cs)) m e (omega arith), omega arith)

abbrev pcmu : Aucodec
pcmu = record {
  addr = 1;
  pt = none;
  name = b'u' ∷ [];
  srate = 8000;
  ch = 1;
  fmtp = none;
  has_ench = true;
  has_dech = true;
}

abbrev codecs : CodecsEnv
codecs = record {
  csl = csl;
  codec = λ cname. none;
  casecmp = strcmp;
  mem = true;
  addr = 2;
  aucodecl = pcmu ∷ [];
  vidcodecl = [];
}

-- "g,u"
abbrev two_names : Bytes
two_names = b'g' ∷ b',' ∷ b'u' ∷ []

abbrev param : Param → Option Bytes
param (p_outbound (some n)) = some (n ∷ [])
param p_sipnat = some word_outbound
param p_audio_codecs = some two_names
param _ = none

abbrev uri : UriParts
uri = record { scheme = []; user = b'a' ∷ []; password = b'p' ∷ []; host = b'h' ∷ []; port = 0 }

abbrev alloc_env : UaAllocEnv
alloc_env = record {
  mem = true;
  prm_mem = true;
  dial_mem = true;
  reg_mem = true;
  aor_err = λ aor. 0;
  cuser = b'c' ∷ [];
  local_uri = λ aor. aor;
  prm = λ aor. record {
    param = param;
    uri = uri;
    uri_decode = λ s. none;
    casecmp = strcmp;
    u32 = λ s. 60;
    rand = 7;
    dup_err = λ s. 0;
    mnatl = [];
    mencl = [];
  };
  audio_exists = λ aor. true;
  video_exists = λ aor. false;
  codecs = codecs;
  line = [];
  uuid = b'i' ∷ [];
  af = 2;
}

ua_alloc-Ends_example : Ends alloc_env (b'a' ∷ []) (ua_alloc alloc_env (some (b'a' ∷ [])))
ua_alloc-Ends_example = ua_alloc-Ends alloc_env takes (b'a' ∷ [])

abbrev alice : RegUa
alice = record {
  regl = [];
  regint = 0;
  outbound = [];
  cuser = b'c' ∷ [];
  user = b'a' ∷ [];
  local_uri = b'a' ∷ [];
  n_bindings = 0;
  af = 2;
  events = [];
}

abbrev req_env : ReqEnv
req_env = record {
  strcmp = strcmp;
  casecmp = strcmp;
  mtype = λ ctype. none;
  msgh = λ ua. false;
  call_err = λ ua. 0;
  sdp_err = λ ua. 12;
}

abbrev options : SipMsg
options = record { met = word_options; user = b'a' ∷ []; ctype = [] }

request_handler-replies_example :
    ((request_handler req_env (alice ∷ []) options).0 ≡ (
      if strcmp word_options word_options == 0
      then true
      else strcmp word_options word_message == 0))
    × (replies (request_handler req_env (alice ∷ []) options).1 ≡ (
        if (request_handler req_env (alice ∷ []) options).0
        then (if mute_options req_env options (ua_find strcmp (b'a' ∷ []) (alice ∷ []))
            then 0
            else 1)
        else 0))
request_handler-replies_example = request_handler-replies req_env (alice ∷ []) options

abbrev stack_env : StackEnv
stack_env = record {
  local_set = false;
  local = none;
  local_err = 0;
  laddr4 = some (record { af = 2; port = 0 });
  laddr6 = none;
  transp_err = λ t sa. 0;
  tls_err = 0;
  net_err = 0;
  sip_err = 0;
  lsnr_err = 0;
  sock_err = 0;
  ev_err = 0;
  cmd_err = 0;
}

abbrev no_stack : Stack
no_stack = record {
  sip = none;
  lsnr = none;
  sock = none;
  evsock = none;
  tls_made = false;
  use_udp = true;
  use_tcp = true;
  use_tls = true;
  prefer_ipv6 = false;
  cmds = false;
  transps = [];
  made = 0;
}

abbrev reg_env : RegEnv
reg_env = record { printed = true; sipreg = λ id route. 0 }

initialised : (ua_init stack_env true true true false no_stack).0 ≡ 0
unfolding ua_init ua_setup_transp ua_add_transp add_transp_af sip_transp_add
initialised = refl

resumed :
    (ua_stack_resume stack_env reg_env true false false
      ((ua_init stack_env true true true false no_stack).1, alice ∷ [])).0
    ≡ 0
unfolding ua_stack_resume resume_stack ua_start_all ua_init ua_setup_transp ua_add_transp
    add_transp_af sip_transp_add
resumed = refl

ua_stack_resume-listeners_example :
    (listeners (ua_init stack_env true true true false no_stack).1 ≡ listening 0)
    × (listeners
          (ua_stack_resume stack_env reg_env true false false
            ((ua_init stack_env true true true false no_stack).1, alice ∷ [])).1.0
        ≡ ((some 1, some 0), ((some 1, some 0), 2)))
ua_stack_resume-listeners_example =
    ua_stack_resume-listeners stack_env stack_env reg_env true true true false true false false
      no_stack (alice ∷ []) initialised resumed
