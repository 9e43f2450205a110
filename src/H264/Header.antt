-- ===== src/H264/Header.antt =====
-- The NAL unit header and the FU header of H.264 packets (jni/baresip/modules/avcodec/h264.c,
-- jni/baresip/modules/avcodec/h26x.h). A decoder returns the header and the bytes behind it, or
-- `none` where the C code returns ENOENT for want of a byte.
use bare_sip_android.Prelude.{ℕ, ◌*◌, ◌/◌, ◌%◌, bit_and, bit_or, Option, none, some, [], ◌∷◌, Bytes}

pub record H264Hdr : Type 0 where
  pub f : ℕ
  pub nri : ℕ
  pub type : ℕ

pub record Fu : Type 0 where
  pub s : ℕ
  pub e : ℕ
  pub r : ℕ
  pub type : ℕ

unfoldable pub h264_hdr_encode : H264Hdr → ℕ
h264_hdr_encode hdr = bit_or (bit_or (hdr.f * 128) (hdr.nri * 32)) hdr.type % 256

unfoldable pub h264_hdr_fields : ℕ → H264Hdr
h264_hdr_fields v = record {
  f = bit_and (v / 128) 1;
  nri = bit_and (v / 32) 3;
  type = bit_and v 0x1f;
}

unfoldable pub h264_hdr_decode : Bytes → Option (H264Hdr × Bytes)
unfolding h264_hdr_fields
h264_hdr_decode [] = none
h264_hdr_decode (v ∷ rest) = some (h264_hdr_fields v, rest)

-- the second shift is of `s`, as in the source
unfoldable pub fu_hdr_encode : Fu → ℕ
fu_hdr_encode fu = bit_or (bit_or (bit_or (fu.s * 128) (fu.s * 64)) (fu.r * 32)) fu.type % 256

unfoldable pub fu_hdr_fields : ℕ → Fu
fu_hdr_fields v = record {
  s = bit_and (v / 128) 1;
  e = bit_and (v / 64) 1;
  r = bit_and (v / 32) 1;
  type = bit_and v 0x1f;
}

unfoldable pub fu_hdr_decode : Bytes → Option (Fu × Bytes)
unfolding fu_hdr_fields
fu_hdr_decode [] = none
fu_hdr_decode (v ∷ rest) = some (fu_hdr_fields v, rest)
