-- ===== src/Audio/State.antt =====
-- An audio stream (jni/baresip/src/audio.c, struct audio). The codec, the audio buffers and the
-- telephony events are the libraries': their states are parameters.
use bare_sip_android.Prelude.{ℕ, ◌*◌, ◌/◌, ◌%◌, ◌^◌, Bool, Option, ◌==◌, ◌&&◌, if◌then◌else◌, Bytes}
use bare_sip_android.Stream.State.{Stream}
use bare_sip_android.Stream.Send.{SendEnv}

-- `srate * channels * ptime / 1000`, of 32 bits
unfoldable pub calc_nsamp : ℕ → ℕ → ℕ → ℕ
calc_nsamp srate channels ptime = (srate * (channels % 2 ^ 8) * (ptime % 2 ^ 16)) % 2 ^ 32 / 1000

pub record Codec : Type 0 where
  pub is_g722 : Bool
  pub srate : ℕ
  pub ch : ℕ

unfoldable pub get_srate : Codec → ℕ
get_srate ac = if ac.is_g722 then 16000 else ac.srate

unfoldable pub aucodec_equal : Codec → Codec → Bool
unfolding get_srate
aucodec_equal a b = get_srate a == get_srate b && a.ch == b.ch

-- to transmit; `poll` tells the audio mode
pub record Autx (E B : Type 0) : Type 0 where
  pub enc : Option E
  pub ab : Option B
  pub ptime : ℕ
  pub ts : ℕ
  pub ts_tel : ℕ
  pub psize : ℕ
  pub marker : Bool
  pub is_g722 : Bool
  pub muted : Bool
  pub poll : Bool

pub record Audio (J E B T : Type 0) : Type 0 where
  pub tx : Autx E B
  pub strm : Stream J
  pub telev : T

-- The encoder gives an error and what it encoded, the filters what they make of a frame, the buffer
-- an error when it is written, and an error and the bytes for a packet time when it is read;
-- telephony events give an error, the marker bit and what is to be sent.
pub record AudioEnv (E B T : Type 0) : Type 0 where
  pub mem : Bool
  pub ench : Bytes → E → (ℕ × Bytes) × E
  pub filter : Bytes → Bytes
  pub aubuf_write : Bytes → B → ℕ × B
  pub aubuf_get : ℕ → ℕ → B → (ℕ × Bytes) × B
  pub telev_poll : T → (ℕ × (Bool × Bytes)) × T
  pub telev_pt : Option ℕ
  pub net : SendEnv
