-- ===== src/RtpKeep/Timer.antt =====
-- The keepalive object of an RTP stream (jni/baresip/src/rtpkeep.c). The payload types that the SDP
-- media has formats for, memory, the answers of the network and the comparison of method names are
-- parameters; what is sent is part of the result.
use bare_sip_android.Prelude.{
  ℕ, zero, suc, ◌+◌, ◌*◌, Bool, true, false, not, Option, none, some, List, [], ◌∷◌, ◌==◌,
  if◌then◌else◌, Bytes, enoent, enomem, einval, enosys,
}

-- the period of the timer in seconds
abbrev pub tr_udp : ℕ
tr_udp = 15

-- The socket and the media are not NULL in an object that was made; `tmr` is the delay with which
-- the timer was last started.
pub record Rtpkeep : Type 0 where
  pub method : Bytes
  pub ts : ℕ
  pub flag : Bool
  pub tmr : ℕ

pub data Keepalive : Type 0 where
  zero_packet stun_binding : Keepalive
  dyna_packet : ℕ → ℕ → Keepalive

pub record KeepEnv : Type 0 where
  pub casecmp : Bytes → Bytes → ℕ
  pub mbuf_ok : Bool
  pub used : ℕ → Bool
  pub send : Keepalive → ℕ

abbrev pub pt_dyn_min : ℕ
pt_dyn_min = 96

-- `for (pt = PT_DYN_MAX; pt>=PT_DYN_MIN; pt--)`: the number is that of the types to try, and `none`
-- the result -1
unfoldable pub find_unused_below : (ℕ → Bool) → ℕ → Option ℕ
find_unused_below used zero = none
find_unused_below used (suc n) =
    let rest = find_unused_below used n in
    if used (pt_dyn_min + n) then rest else some (pt_dyn_min + n)

-- from 127 down to 96
unfoldable pub find_unused_pt : (ℕ → Bool) → Option ℕ
unfolding find_unused_below
find_unused_pt used = find_unused_below used 32

abbrev pub method_zero : Bytes
method_zero = b'z' ∷ b'e' ∷ b'r' ∷ b'o' ∷ []

abbrev pub method_stun : Bytes
method_stun = b's' ∷ b't' ∷ b'u' ∷ b'n' ∷ []

abbrev pub method_dyna : Bytes
method_dyna = b'd' ∷ b'y' ∷ b'n' ∷ b'a' ∷ []

abbrev pub method_rtcp : Bytes
method_rtcp = b'r' ∷ b't' ∷ b'c' ∷ b'p' ∷ []

module _ (env : KeepEnv) where
  abbrev send : Keepalive → List Keepalive × ℕ
  send k = (k ∷ [], env.send k)

  abbrev pub send_dyna : ℕ → Option ℕ → List Keepalive × ℕ
  send_dyna ts none = ([], enoent)
  send_dyna ts (some pt) = send (dyna_packet pt ts)

  -- the packets that are handed to the network, and the error
  unfoldable pub send_keepalive : Rtpkeep → List Keepalive × ℕ
  unfolding find_unused_pt
  send_keepalive rk =
      if env.casecmp rk.method method_zero == 0
      then if env.mbuf_ok then send zero_packet else ([], enomem)
      else if env.casecmp rk.method method_stun == 0
      then send stun_binding
      else if env.casecmp rk.method method_dyna == 0
      then if env.mbuf_ok then send_dyna rk.ts (find_unused_pt env.used) else ([], enomem)
      else if env.casecmp rk.method method_rtcp == 0
      then ([], 0)
      else ([], enosys)

  -- the timer is started again first; an error is only printed
  unfoldable pub timeout : Rtpkeep → Rtpkeep × List Keepalive
  unfolding send_keepalive
  timeout rk =
      let rk' : Rtpkeep = record rk { tmr = tr_udp * 1000 } in
      if rk.flag then (record rk' { flag = false }, []) else (rk', (send_keepalive rk').0)

-- The tests for NULL and for UDP, the memory for the object, and the error of copying the method.
unfoldable pub rtpkeep_alloc : Bool → Bool → ℕ → Bytes → Option Rtpkeep × ℕ
rtpkeep_alloc valid alloc dup method =
    if not valid
    then (none, einval)
    else if not alloc
    then (none, enomem)
    else if not (dup == 0)
    then (none, dup)
    else (some (record { method = method; ts = 0; flag = false; tmr = 20 }), 0)

unfoldable pub rtpkeep_refresh : ℕ → Option Rtpkeep → Option Rtpkeep
rtpkeep_refresh ts none = none
rtpkeep_refresh ts (some rk) = some (record rk { ts = ts; flag = true })
