-- ===== src/Uag/Requests.antt =====
-- Requests outside a session (jni/baresip/src/ua.c, request_handler, handle_options, handle_message,
-- require_handler, ua_im_send). The comparison of strings, SIP and SDP are the libraries'.
use bare_sip_android.Prelude.{
  ℕ, suc, ◌≡◌, refl, Bool, true, false, not, ◌&&◌, Option, none, some, List, [], ◌∷◌, ◌==◌,
  if◌then◌else◌, Bytes, einval, arith, Bool-cases, inl, inr,
}
use bare_sip_android.Uag.State.{RegUa}
use bare_sip_android.Uag.Find.{ua_find}

pub record SipMsg : Type 0 where
  pub met : Bytes
  pub user : Bytes
  pub ctype : Bytes

-- What is done with a request: answers, a call that is made to describe the media and released, a
-- message handed to the application, and the tone for one.
pub data ReqEffect : Type 0 where
  sip_reply : ℕ → ReqEffect
  made_call freed_call told_message played_message : ReqEffect

-- `mtype` is the media type without its parameters, where it is found; `msgh` tells whether the user
-- agent has a handler of messages.
pub record ReqEnv : Type 0 where
  pub strcmp : Bytes → Bytes → ℕ
  pub casecmp : Bytes → Bytes → ℕ
  pub mtype : Bytes → Option Bytes
  pub msgh : RegUa → Bool
  pub call_err : RegUa → ℕ
  pub sdp_err : RegUa → ℕ

abbrev pub word_options : Bytes
word_options = b'O' ∷ b'P' ∷ b'T' ∷ b'I' ∷ b'O' ∷ b'N' ∷ b'S' ∷ []

abbrev pub word_message : Bytes
word_message = b'M' ∷ b'E' ∷ b'S' ∷ b'S' ∷ b'A' ∷ b'G' ∷ b'E' ∷ []

abbrev pub word_text : Bytes
word_text = b't' ∷ b'e' ∷ b'x' ∷ b't' ∷ b'/' ∷ b'p' ∷ b'l' ∷ b'a' ∷ b'i' ∷ b'n' ∷ []

-- `sip_extensions`
abbrev pub sip_extensions : List Bytes
sip_extensions =
    (b'i' ∷ b'c' ∷ b'e' ∷ []) ∷ (b'o' ∷ b'u' ∷ b't' ∷ b'b' ∷ b'o' ∷ b'u' ∷ b'n' ∷ b'd' ∷ []) ∷ []

abbrev or_ctype : Option Bytes → Bytes → Bytes
or_ctype none ctype = ctype
or_ctype (some mtype) ctype = mtype

unfoldable pub handle_options : ReqEnv → RegUa → List ReqEffect
handle_options env ua =
    if not (env.call_err ua == 0)
    then sip_reply 500 ∷ []
    else if not (env.sdp_err ua == 0)
    then made_call ∷ freed_call ∷ []
    else made_call ∷ sip_reply 200 ∷ freed_call ∷ []

unfoldable pub handle_message : ReqEnv → RegUa → SipMsg → List ReqEffect
handle_message env ua msg =
    if env.msgh ua
    then told_message ∷ sip_reply 200 ∷ []
    else if env.casecmp (or_ctype (env.mtype msg.ctype) msg.ctype) word_text == 0
    then played_message ∷ sip_reply 200 ∷ []
    else sip_reply 415 ∷ []

abbrev pub handle_found : ReqEnv → Bool → SipMsg → Option RegUa → List ReqEffect
handle_found env opt msg none = sip_reply 404 ∷ []
handle_found env opt msg (some ua) =
    if opt then handle_options env ua else handle_message env ua msg

-- whether the request is taken, and what is done
unfoldable pub request_handler : ReqEnv → List RegUa → SipMsg → Bool × List ReqEffect
unfolding ua_find handle_options handle_message
request_handler env ual msg =
    let found = ua_find env.casecmp msg.user ual in
    if env.strcmp msg.met word_options == 0
    then (true, handle_found env true msg found)
    else if env.strcmp msg.met word_message == 0
    then (true, handle_found env false msg found)
    else (false, [])

-- the header has an extension that is not supported
unfoldable pub require_handler : (Bytes → Bytes → ℕ) → List Bytes → Bytes → Bool
require_handler casecmp [] val = true
require_handler casecmp (ext ∷ exts) val =
    if casecmp val ext == 0 then false else require_handler casecmp exts val

-- The peer's address is decoded and copied, each with an error, before the request is sent.
unfoldable pub ua_im_send : ℕ → ℕ → ℕ → Option Bytes → Option Bytes → ℕ
ua_im_send decode_err dup_err send_err none msg = einval
ua_im_send decode_err dup_err send_err (some peer) none = einval
ua_im_send decode_err dup_err send_err (some peer) (some msg) =
    if not (decode_err == 0) then decode_err else if not (dup_err == 0) then dup_err else send_err

unfoldable pub ua_options_send : Bool → ℕ → ℕ
ua_options_send ua send_err = if ua then send_err else einval

-- how many answers there are
abbrev pub replies : List ReqEffect → ℕ
replies [] = 0
replies (sip_reply code ∷ es) = suc (replies es)
replies (_ ∷ es) = replies es

-- the request asks for a description that cannot be given
abbrev pub mute_options : ReqEnv → SipMsg → Option RegUa → Bool
mute_options env msg none = false
mute_options env msg (some ua) =
    env.strcmp msg.met word_options == 0 && (env.call_err ua == 0 && not (env.sdp_err ua == 0))

found_replies :
    (env : ReqEnv) (opt : Bool) (msg : SipMsg) (o : Option RegUa)
    → env.strcmp msg.met word_options == 0 ≡ opt
    → replies (handle_found env opt msg o) ≡ (if mute_options env msg o then 0 else 1)
unfolding handle_options handle_message
found_replies env opt msg none e = refl
found_replies env true msg (some ua) e = ground (arith, e)
found_replies env false msg (some ua) e = ground (arith, e)

-- A request outside a session is taken exactly if it is OPTIONS or MESSAGE. One that is taken is
-- answered once, whether its user agent is found or not, except an OPTIONS for whose call no
-- description can be encoded: that is not answered. Others are left alone.
pub request_handler-replies :
    (env : ReqEnv) (ual : List RegUa) (msg : SipMsg)
    → ((request_handler env ual msg).0 ≡ (
        if env.strcmp msg.met word_options == 0
        then true
        else env.strcmp msg.met word_message == 0))
      × (replies (request_handler env ual msg).1 ≡ (
          if (request_handler env ual msg).0
          then (if mute_options env msg (ua_find env.casecmp msg.user ual) then 0 else 1)
          else 0))
unfolding request_handler
request_handler-replies env ual msg =
    let found = ua_find env.casecmp msg.user ual in
    elim (Bool-cases (env.strcmp msg.met word_options == 0)) [
      | inl o ↦ rw (o) (refl, found_replies env true msg found o)
      | inr o ↦ elim (Bool-cases (env.strcmp msg.met word_message == 0)) [
        | inl m ↦ rw (o, m) (refl, found_replies env false msg found o)
        | inr m ↦ rw (o, m) (refl, refl)
      ]
    ]
