-- ===== src/Call/Control.antt =====
-- The operations on a call that the user agent starts (jni/baresip/src/call.c). An operation of the
-- interface that takes a call begins with a test for NULL, `null_check`.
use bare_sip_android.Prelude.{
  ℕ, Bool, true, false, not, ◌||◌, Option, none, some, ltb, leb, ◌==◌, if◌then◌else◌, Bytes, einval,
  enomem,
}
use bare_sip_android.Call.State.{
  CallState, incoming, outgoing, terminated, ev_incoming, desc_ref, Tone, str_dup, sip_addr_decode,
  mbuf_alloc, sdp_set_laddr, sdp_encode, sdp_decode, sipsess_connect, sipsess_accept,
  sipsess_modify, sipsess_progress, sipsess_answer, sipsess_reject, sipevent_drefer,
  sipevent_notify, deref, desc_garbage, stream_hold, tmr_start, Call, Env, M, pure, ◌>>=◌, ◌>>◌,
  ext, run, modify, get, attempt, when, for_each, set_state, drop_play, drop_not, drop_sub,
  drop_sess, call_event,
}
use bare_sip_android.Call.Media.{call_stream_start, call_stream_stop, update_media, play_tone}

-- `if (!call) return EINVAL;`
unfoldable pub null_check : M ℕ → Env → Option Call → ℕ × Option Call
null_check m env none = (einval, none)
null_check m env (some c) = let (err, c') = m env c in (err, some c')

-- The session is set exactly when sipsess_connect succeeds. The error of sdp_encode is returned
-- before `desc` is released.
unfoldable pub send_invite : M ℕ
send_invite = attempt (ext (sdp_encode true)) do
  err ← ext sipsess_connect
  modify λ c. record c { sess = c.sess || err == 0 }
  run (deref desc_ref)
  pure err

-- `auri` is the address in `paddr`, if it can be decoded
unfoldable pub call_connect : Bytes → Bytes → M ℕ
call_connect paddr auri = do
  e ← ext sip_addr_decode
  attempt (ext str_dup) do
    modify λ c. record c { peer_uri = some (if e == 0 then auri else paddr) }
    set_state outgoing
    c ← get
    if c.mnat then pure 0 else send_invite

-- `desc` is released whether or not sdp_encode has set it
unfoldable pub call_modify : M ℕ
call_modify = do
  e ← ext (sdp_encode true)
  if e == 0
      then (do e' ← ext sipsess_modify; run (deref desc_ref); pure e')
      else do run desc_garbage; pure e

abbrev hangup_in : CallState → M (Unit {0})
hangup_in incoming = do run (sipsess_reject 486); drop_play
hangup_in _ = drop_sess

unfoldable pub call_hangup : M ℕ
call_hangup = do c ← get; hangup_in c.state; set_state terminated; call_stream_stop; pure 0

unfoldable pub call_progress : M ℕ
call_progress = attempt (ext (sdp_encode false)) do
  err ← ext sipsess_progress
  when (err == 0) (call_stream_start false)
  run (deref desc_ref)
  pure 0

abbrev pub is_incoming : CallState → Bool
is_incoming incoming = true
is_incoming _ = false

-- the part of call_answer behind its tests
unfoldable pub answer_call : ℕ → M ℕ
answer_call scode = do
  drop_play
  c ← get
  attempt (if c.got_offer then update_media else pure 0) (
      attempt (ext (sdp_encode (not c.got_offer)))
        do err ← ext (sipsess_answer scode); run (deref desc_ref); pure err)

unfoldable pub call_answer : ℕ → M ℕ
call_answer scode = do
  c ← get
  if not c.sess
      then pure einval
      else if not (is_incoming c.state)
      then pure 0
      else answer_call scode

unfoldable pub call_hold : Bool → M ℕ
call_hold hold = do
  c ← get
  if not c.sess then pure einval else do for_each (stream_hold hold) c.streaml; call_modify

unfoldable pub call_ringtone : Tone → M ℕ
call_ringtone tone = play_tone tone

unfoldable pub call_reset_transp : M ℕ
call_reset_transp = do run sdp_set_laddr; call_modify

unfoldable pub call_notify_sipfrag : ℕ → M ℕ
call_notify_sipfrag scode = do
  e ← ext mbuf_alloc
  if not (e == 0)
      then pure enomem
      else if leb 200 scode
      then (do err ← ext (sipevent_notify true); drop_not; pure err)
      else ext (sipevent_notify false)

unfoldable pub call_transfer : M ℕ
call_transfer = do
  drop_sub
  err ← ext sipevent_drefer
  modify λ c. record c { sub = err == 0 }
  pure err

-- A SIP message, as far as the call reads it: the status code, the bytes of its body, its content
-- type, the address and the display name of its sender.
pub data Ctype : Type 0 where
  application_sdp media_control other_type : Ctype

pub record Msg : Type 0 where
  pub scode : ℕ
  pub left : ℕ
  pub ctype : Ctype
  pub from_auri : Bytes
  pub from_dname : Option Bytes

abbrev copy_name : Option Bytes → M ℕ
copy_name none = pure 0
copy_name (some dname) =
    attempt (ext str_dup) do modify λ c. record c { peer_name = some dname }; pure 0

abbrev read_offer : Bool → M ℕ
read_offer false = pure 0
read_offer true =
    attempt (ext (sdp_decode true)) do modify λ c. record c { got_offer = true }; pure 0

abbrev begin_incoming : M ℕ
begin_incoming = attempt (ext sipsess_accept) do
  modify λ c. record c { sess = true }
  set_state incoming
  run tmr_start
  modify λ c. record c { tmr_inv = true }
  c ← get
  when (not c.mnat) (call_event ev_incoming)
  pure 0

unfoldable pub call_accept : Msg → M ℕ
call_accept msg = attempt (ext str_dup) do
  modify λ c. record c { peer_uri = some msg.from_auri }
  attempt (copy_name msg.from_dname) (attempt (read_offer (ltb 0 msg.left)) begin_incoming)
