-- ===== src/H264/Bits.antt =====
-- What the receiver reads from the header bytes that the sender makes
-- (jni/baresip/modules/avcodec/h264.c). Each fact is checked at every header byte.
use bare_sip_android.Prelude.{
  ℕ, ◌/◌, ◌%◌, ◌<◌, bit_and, bit_or, ◌≡◌, refl, Bool, true, ◌&&◌, arith, ◌==◌, all_below,
  all_below_sound,
}
use bare_sip_android.H264.Header.{H264Hdr, Fu, h264_hdr_encode, h264_hdr_fields, fu_hdr_fields}
use bare_sip_android.H264.Send.{h264_nal_fu_a}

abbrev pub indicator : ℕ → ℕ
indicator hdr = bit_or (bit_and hdr 0x60) h264_nal_fu_a

abbrev has_hdr : H264Hdr → ℕ → ℕ → Bool
has_hdr h nri type = h.f == 0 && h.nri == nri && h.type == type

abbrev has_fu : Fu → ℕ → ℕ → Bool
has_fu h s type = h.s == s && h.type == type

-- what the receiver reads from the bytes that the sender makes of the NAL header `hdr`
abbrev bits : ℕ → Bool
bits hdr =
    has_hdr (h264_hdr_fields hdr) (hdr / 32) (hdr % 32)
    && has_hdr (h264_hdr_fields (indicator hdr)) (hdr / 32) 28
    && bit_and hdr 0x1f == hdr % 32
    && h264_hdr_encode (record { f = 0; nri = hdr / 32; type = hdr % 32 }) == hdr

abbrev fu_bits : ℕ → Bool
fu_bits type =
    has_fu (fu_hdr_fields type) 0 type
    && has_fu (fu_hdr_fields (bit_or type 64)) 0 type
    && has_fu (fu_hdr_fields (bit_or 128 type)) 1 type
    && bit_and (bit_or 128 type) 0x7f == type
    && bit_and type 0x7f == type

bits_table : all_below 128 bits ≡ true
unfolding all_below h264_hdr_fields h264_hdr_encode
bits_table = refl

fu_bits_table : all_below 32 fu_bits ≡ true
unfolding all_below fu_hdr_fields
fu_bits_table = refl

pub record Bits (hdr : ℕ) : Type 0 where
  pub own : h264_hdr_fields hdr ≡ record { f = 0; nri = hdr / 32; type = hdr % 32 }
  pub ind : h264_hdr_fields (indicator hdr) ≡ record { f = 0; nri = hdr / 32; type = 28 }
  pub low : bit_and hdr 0x1f ≡ hdr % 32
  pub back : h264_hdr_encode (record { f = 0; nri = hdr / 32; type = hdr % 32 }) ≡ hdr

pub Bits_lem : (hdr : ℕ) → hdr < 128 → Bits hdr
Bits_lem hdr h =
    let e : bits hdr ≡ true = all_below_sound 128 bits hdr bits_table h in
    record { own = ground arith; ind = ground arith; low = ground arith; back = ground arith }

pub record FuBits (type : ℕ) : Type 0 where
  pub mid : ((fu_hdr_fields type).s ≡ 0) × ((fu_hdr_fields type).type ≡ type)
  pub end :
      ((fu_hdr_fields (bit_or type 64)).s ≡ 0) × ((fu_hdr_fields (bit_or type 64)).type ≡ type)
  pub start :
      ((fu_hdr_fields (bit_or 128 type)).s ≡ 1) × ((fu_hdr_fields (bit_or 128 type)).type ≡ type)
  pub clear : bit_and (bit_or 128 type) 0x7f ≡ type
  pub stay : bit_and type 0x7f ≡ type

pub FuBits_lem : (type : ℕ) → type < 32 → FuBits type
FuBits_lem type h =
    let e : fu_bits type ≡ true = all_below_sound 32 fu_bits type fu_bits_table h in
    record {
      mid = ground arith;
      end = ground arith;
      start = ground arith;
      clear = ground arith;
      stay = ground arith;
    }
