-- ===== src/Stream/State.antt =====
-- A media stream (jni/baresip/src/stream.c, struct stream). The jitter buffer is the library's: its
-- operations are a parameter.
use bare_sip_android.Prelude.{ℕ, ◌%◌, ◌^◌, Bool, Option, Bytes, ◌+◌}

-- what the code reads of an RTP header
pub record RtpHeader : Type 0 where
  pub seq : ℕ
  pub ts : ℕ
  pub ssrc : ℕ

-- jbuf_flush, jbuf_put with its error, and jbuf_get, which gives a frame or fails
pub record JbufOps (J : Type 0) : Type 0 where
  pub flush : J → J
  pub put : RtpHeader → Bytes → J → ℕ × J
  pub take_frame : J → Option (RtpHeader × Bytes) × J

pub record Stats : Type 0 where
  pub n_tx : ℕ
  pub n_rx : ℕ
  pub b_tx : ℕ
  pub b_rx : ℕ
  pub bitrate_tx : ℕ
  pub bitrate_rx : ℕ
  pub ts : ℕ

-- `ldir` is the local direction of the SDP media, `tmr_stats` the delay with which that timer was
-- started last; a `pt_enc` of `none` is -1.
pub record Stream (J : Type 0) : Type 0 where
  pub jbuf : Option J
  pub ldir : ℕ
  pub rtpkeep : Bool
  pub ssrc_rx : ℕ
  pub pseq : ℕ
  pub rtcp_mux : Bool
  pub pt_enc : Option ℕ
  pub tmr_stats : ℕ
  pub stats : Stats

-- the directions of a media, as bits
abbrev pub sdp_recvonly : ℕ
sdp_recvonly = 1

abbrev pub sdp_sendonly : ℕ
sdp_sendonly = 2

abbrev pub sdp_sendrecv : ℕ
sdp_sendrecv = 3

-- a `uint32_t`, and a `size_t` of 32 bits
abbrev pub add_word : ℕ → ℕ → ℕ
add_word a b = (a + b) % 2 ^ 32
