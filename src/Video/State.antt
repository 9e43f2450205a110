-- ===== src/Video/State.antt =====
-- A video stream (jni/baresip/src/video.c, struct video); its two codecs and their registry are those of Registry. The
-- codecs, the sources, the displays and the filters are drivers: what they do is a parameter.
use bare_sip_android.Prelude.{ℕ, Bool, Option, none, some, List, Bytes}
use bare_sip_android.Stream.State.{Stream}
use bare_sip_android.Stream.Send.{SendEnv, SendEffect}
use bare_sip_android.Registry.Driver.{Driver}
use bare_sip_android.Registry.Device.{Vidcodec}

-- a frame: whether it has the format VID_FMT_YUV420P, its size and its pixels
pub record VidFrame : Type 0 where
  pub yuv420p : Bool
  pub w : ℕ
  pub h : ℕ
  pub pixels : Bytes

-- A filter's handlers, each an error and what it makes of a frame in place.
pub record VidFilt : Type 0 where
  pub ench : Option (VidFrame → ℕ × VidFrame)
  pub dech : Option (VidFrame → ℕ × VidFrame)

-- what a video source is allocated with, and what it is told by an update
pub record VidsrcPrm : Type 0 where
  pub fps : ℕ
  pub orient : ℕ
  pub w : ℕ
  pub h : ℕ
  pub dev : Option Bytes

-- The encoder and the decoder of a stream, which may be one object with two references.
pub data Codecs (C : Type 0) : Type 0 where
  neither : Codecs C
  encoder decoder shared : Vidcodec → C → Codecs C
  separate : Vidcodec → C → Vidcodec → C → Codecs C

-- `frame` is the size of the frame for conversions, where there is one.
pub record Vtx : Type 0 where
  pub fps : ℕ
  pub orient : ℕ
  pub src_w : ℕ
  pub src_h : ℕ
  pub vsrc : Bool
  pub frame : Option (ℕ × ℕ)
  pub mute_frame : Option VidFrame
  pub muted_frames : ℕ
  pub ts_tx : ℕ
  pub picup : Bool
  pub muted : Bool
  pub frames : ℕ
  pub efps : ℕ

-- a `pt_rx` of `none` is -1
pub record Vrx : Type 0 where
  pub vidisp : Bool
  pub orient : ℕ
  pub fullscreen : Bool
  pub pt_rx : Option ℕ
  pub frames : ℕ
  pub efps : ℕ

-- `tmr` is the delay with which the timer was started, where it was
pub record Video (J C : Type 0) : Type 0 where
  pub strm : Stream J
  pub codecs : Codecs C
  pub vtx : Vtx
  pub vrx : Vrx
  pub filtl : List VidFilt
  pub tmr : Option ℕ
  pub max_rtp_size : ℕ
  pub peer : Option Bytes
  pub nack_pli : Bool

pub data VidEffect : Type 0 where
  encode : Bool → VidFrame → VidEffect  -- the encoder is called, for a full picture or not
  encoded : ℕ → VidEffect  -- and gives its error
  sends : SendEffect → VidEffect
  send_fir : Bool → VidEffect
  display : Option Bytes → VidFrame → VidEffect
  vidsrc_updated : VidsrcPrm → VidEffect
  vidisp_updated : Bool → ℕ → VidEffect

-- An encoder hands over packets, each with its marker bit, and is told the error of each; it ends
-- with an error.
pub data Encoding (C : Type 0) : Type 0 where
  packet : Bool → Bytes → (ℕ → Encoding C) → Encoding C
  ends : ℕ → C → Encoding C

-- A codec's allocation handler is told the frame rate, and the parameters of the format.
pub record VideoEnv (C : Type 0) : Type 0 where
  pub mem : Bool
  pub ench : Vidcodec → Bool → VidFrame → C → Encoding C
  pub dech : Vidcodec → Bool → Option Bytes → C → (ℕ × Option VidFrame) × C
  pub alloch : Vidcodec → ℕ → Option Bytes → ℕ × Option C
  pub casecmp : Bytes → Bytes → ℕ
  pub vidconv : VidFrame → ℕ × ℕ → Bytes
  pub net : SendEnv
  pub lformat : ℕ → Option (Vidcodec × ℕ)  -- sdp_media_lformat: the codec and its payload type
  pub rattr_fps : Option ℕ  -- the whole part of the attribute framerate, not negative
  pub rattr_nack : Bool  -- the attribute rtcp-fb has the word nack
  pub cfg_fps : ℕ
  pub cfg_w : ℕ
  pub cfg_h : ℕ
  pub vidsrcl : List (Driver VidsrcPrm)
  pub vidispl : List (Driver Unit)
  pub disph : VidFrame → ℕ
  pub vidisp_updateh : Option ℕ
  pub vidsrc_updateh : Bool
  pub vidframe_fill : ℕ × ℕ → Bytes  -- the white of a frame

abbrev pub srate : ℕ
srate = 90000

abbrev pub max_muted_frames : ℕ
max_muted_frames = 3

abbrev pub tmr_interval : ℕ
tmr_interval = 5

unfoldable pub get_fps : {C : Type 0} → VideoEnv C → ℕ
get_fps env = elim env.rattr_fps [ none ↦ env.cfg_fps | some fps ↦ fps ]

module _ {C : Type 0} where
  abbrev pub enc_of : Codecs C → Option (Vidcodec × C)
  enc_of neither = none
  enc_of (encoder vc c) = some (vc, c)
  enc_of (decoder vc c) = none
  enc_of (shared vc c) = some (vc, c)
  enc_of (separate vc c wc d) = some (vc, c)

  abbrev pub dec_of : Codecs C → Option (Vidcodec × C)
  dec_of neither = none
  dec_of (encoder vc c) = none
  dec_of (decoder vc c) = some (vc, c)
  dec_of (shared vc c) = some (vc, c)
  dec_of (separate vc c wc d) = some (wc, d)

  -- a call changed the encoder, or the decoder
  abbrev pub put_enc : C → Codecs C → Codecs C
  put_enc e neither = neither
  put_enc e (encoder vc c) = encoder vc e
  put_enc e (decoder vc c) = decoder vc c
  put_enc e (shared vc c) = shared vc e
  put_enc e (separate vc c wc d) = separate vc e wc d

  abbrev pub put_dec : C → Codecs C → Codecs C
  put_dec e neither = neither
  put_dec e (encoder vc c) = encoder vc c
  put_dec e (decoder vc c) = decoder vc e
  put_dec e (shared vc c) = shared vc e
  put_dec e (separate vc c wc d) = separate vc c wc e

  -- mem_deref of one of the two
  abbrev pub drop_enc : Codecs C → Codecs C
  drop_enc neither = neither
  drop_enc (encoder vc c) = neither
  drop_enc (decoder vc c) = decoder vc c
  drop_enc (shared vc c) = decoder vc c
  drop_enc (separate vc c wc d) = decoder wc d

  abbrev pub drop_dec : Codecs C → Codecs C
  drop_dec neither = neither
  drop_dec (encoder vc c) = encoder vc c
  drop_dec (decoder vc c) = neither
  drop_dec (shared vc c) = encoder vc c
  drop_dec (separate vc c wc d) = encoder vc c
