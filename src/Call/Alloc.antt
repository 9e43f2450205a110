-- ===== src/Call/Alloc.antt =====
-- Making a call object (jni/baresip/src/call.c, call_alloc). The other components that it calls are
-- effects; the local address is part of them.
use bare_sip_android.Prelude.{
  ℕ, ◌-◌, bit_or, Bool, true, false, not, ◌&&◌, ◌||◌, Option, none, some, [], ◌∷◌, ◌++◌, ltb, leb,
  ◌==◌, einval, enomem, if◌then◌else◌, Bytes,
}
use bare_sip_android.Call.State.{
  idle, mem_zalloc, str_dup, sdp_session_alloc, sdp_set_lattr, mnat_sessh, audio_alloc, video_alloc,
  set_bw, Call, Env, M, pure, ◌>>=◌, ◌>>◌, ext, run, modify, attempt, when,
}

-- the parameters, as far as the call keeps or tests them
pub record AllocPrm : Type 0 where
  pub ua : Bool  -- `ua` is not NULL
  pub local_name : Bytes
  pub local_uri : Bytes
  pub af : ℕ
  pub vidmode_off : Bool
  pub has_vidcodec : Bool
  pub has_vidsrc : Bool
  pub has_vidisp : Bool
  pub mnat : Bool
  pub mnat_updateh : Bool
  pub msg_left : Option ℕ  -- the size of the body of the message for an incoming call
  pub xcall_not : Bool  -- `xcall->not`, if there is another call to inherit from
  pub eh : Bool
  pub rtp_bw_max : ℕ

abbrev pub audio_bandwidth : ℕ
audio_bandwidth = 128000

unfoldable pub zeroed : AllocPrm → Call
zeroed prm = record {
  state = idle;
  sess = false;
  sub = false;
  notif = false;
  play = false;
  streaml = [];
  video = false;
  local_name = [];
  local_uri = [];
  peer_uri = none;
  peer_name = none;
  tmr_inv = false;
  time_start = 0;
  time_stop = 0;
  got_offer = false;
  mnats = false;
  mnat = prm.mnat;
  mnat_updateh = prm.mnat_updateh;
  mnat_wait = false;
  af = prm.af;
  eh = prm.eh;
  log = [];
}

-- the names, both copied before their errors are tested
unfoldable pub copy_names : AllocPrm → M ℕ
copy_names prm = do
  e ← ext str_dup
  modify λ c. record c { local_name = prm.local_name }
  e' ← ext str_dup
  modify λ c. record c { local_uri = prm.local_uri }
  pure (bit_or e e')

-- a message with a body holds an offer
abbrev has_offer : Option ℕ → Bool
has_offer none = false
has_offer (some left) = ltb 0 left

unfoldable pub start_mnat : AllocPrm → M ℕ
start_mnat prm =
    if prm.mnat
    then (do
      e ← ext (mnat_sessh (not (has_offer prm.msg_left)))
      modify λ c. record c { mnats = e == 0 }
      pure e)
    else pure 0

-- a stream that is made is appended to the list of the call
unfoldable pub add_audio : M ℕ
add_audio = do
  e ← ext audio_alloc
  modify λ c. record c { streaml = if e == 0 then c.streaml ++ 1 ∷ [] else c.streaml }
  pure e

unfoldable pub add_video : AllocPrm → M ℕ
add_video prm =
    if not prm.vidmode_off && prm.has_vidcodec && (prm.has_vidsrc || prm.has_vidisp)
    then (do
      e ← ext video_alloc
      modify λ c. record c {
        streaml = if e == 0 then c.streaml ++ 2 ∷ [] else c.streaml;
        video = e == 0;
      }
      pure e)
    else pure 0

unfoldable pub set_bandwidth : AllocPrm → M (Unit {0})
set_bandwidth prm =
    when (leb audio_bandwidth prm.rtp_bw_max)
      do run (set_bw 1 audio_bandwidth); run (set_bw 2 (prm.rtp_bw_max - audio_bandwidth))

abbrev pub wait_for_mnat : M ℕ
wait_for_mnat = do modify λ c. record c { mnat_wait = true }; pure 0

abbrev pub finish_alloc : AllocPrm → M ℕ
finish_alloc prm = do set_bandwidth prm; modify λ c. record c { notif = prm.xcall_not }; pure 0

unfoldable pub alloc_call : AllocPrm → M ℕ
unfolding copy_names start_mnat add_audio add_video set_bandwidth
alloc_call prm = attempt (copy_names prm) (
    attempt (ext sdp_session_alloc) (
      attempt (ext sdp_set_lattr) (
        attempt (start_mnat prm) (
          attempt wait_for_mnat (attempt add_audio (attempt (add_video prm) (finish_alloc prm)))))))

-- The call if every part could be made, and the error otherwise; a call that fails is released.
unfoldable pub call_alloc : Env → AllocPrm → Option Call × ℕ
unfolding zeroed
call_alloc env prm =
    let (err, c) = alloc_call prm env (zeroed prm) in
    if not prm.ua
    then (none, einval)
    else if not (env [] mem_zalloc == 0)
    then (none, enomem)
    else (if err == 0 then some c else none, err)
