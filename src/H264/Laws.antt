-- ===== src/H264/Laws.antt =====
-- The packet headers of H.264 as codecs (jni/baresip/modules/avcodec/h264.c). Facts about bits are
-- checked at every byte.
use bare_sip_android.Prelude.{
  ℕ, ◌+◌, ◌*◌, ◌/◌, ◌%◌, ◌<◌, ◌≡◌, refl, ap, subst, Bool, true, ◌&&◌, some, ◌∷◌, arith, ◌==◌,
  ==_iff, all_below, all_below_sound, Bytes,
}
use bare_sip_android.H264.Header.{
  H264Hdr, Fu, h264_hdr_encode, h264_hdr_fields, h264_hdr_decode, fu_hdr_encode, fu_hdr_fields,
  fu_hdr_decode,
}

-- the fields fit their bit widths
pub record IsHdr (h : H264Hdr) : Type 0 where
  pub f_bit : h.f < 2
  pub nri_bits : h.nri < 4
  pub type_bits : h.type < 32

pub record IsFu (h : Fu) : Type 0 where
  pub s_bit : h.s < 2
  pub e_bit : h.e < 2
  pub r_bit : h.r < 2
  pub type_bits : h.type < 32

-- the header whose byte is `v`, by arithmetic
abbrev hdr_of : ℕ → H264Hdr
hdr_of v = record { f = v / 128; nri = v / 32 % 4; type = v % 32 }

abbrev same_hdr : H264Hdr → H264Hdr → Bool
same_hdr a b = a.f == b.f && a.nri == b.nri && a.type == b.type

abbrev same_fu : Fu → Fu → Bool
same_fu a b = a.s == b.s && a.e == b.e && a.r == b.r && a.type == b.type

hdr_table :
    all_below 256 (λ v. same_hdr (h264_hdr_fields (h264_hdr_encode (hdr_of v))) (hdr_of v)) ≡ true
unfolding all_below h264_hdr_fields h264_hdr_encode
hdr_table = refl

byte_table : all_below 256 (λ v. h264_hdr_encode (h264_hdr_fields v) == v) ≡ true
unfolding all_below h264_hdr_fields h264_hdr_encode
byte_table = refl

same_hdr-eq : (a b : H264Hdr) → same_hdr a b ≡ true → a ≡ b
same_hdr-eq a b h = ground arith

hdr_of-fields : (h : H264Hdr) → IsHdr h → hdr_of (h.f * 128 + h.nri * 32 + h.type) ≡ h
hdr_of-fields h v = ground arith

fields-encode : (v : ℕ) → v < 256 → h264_hdr_fields (h264_hdr_encode (hdr_of v)) ≡ hdr_of v
fields-encode v h = same_hdr-eq _ _ (all_below_sound 256 _ v hdr_table h)

-- A header whose fields fit their widths is decoded from its byte, and the bytes behind it are
-- left.
h264_hdr_decode-encode :
    (h : H264Hdr) (rest : Bytes)
    → IsHdr h
    → h264_hdr_decode (h264_hdr_encode h ∷ rest) ≡ some (h, rest)
unfolding h264_hdr_decode
h264_hdr_decode-encode h rest v =
    let e : h264_hdr_fields (h264_hdr_encode h) ≡ h =
      rw (hdr_of-fields h v) at
        (fields-encode (h.f * 128 + h.nri * 32 + h.type) (omega (arith, v))) in
    ap (λ x. some (x, rest)) e

-- a decoded byte is encoded to itself
pub h264_hdr_encode-fields : (v : ℕ) → v < 256 → h264_hdr_encode (h264_hdr_fields v) ≡ v
h264_hdr_encode-fields v h = (==_iff _ v).0 (all_below_sound 256 _ v byte_table h)

-- the FU header whose byte is `v`, by arithmetic
abbrev fu_of : ℕ → Fu
fu_of v = record { s = v / 128; e = v / 64 % 2; r = v / 32 % 2; type = v % 32 }

fu_table :
    all_below 256 (λ v.
      same_fu
        (fu_hdr_fields (fu_hdr_encode (fu_of v)))
        (record { s = v / 128; e = v / 128; r = v / 32 % 2; type = v % 32 }))
    ≡ true
unfolding all_below fu_hdr_fields fu_hdr_encode
fu_table = refl

same_fu-eq : (a b : Fu) → same_fu a b ≡ true → a ≡ b
same_fu-eq a b h = ground arith

fu_of-fields : (h : Fu) → IsFu h → fu_of (h.s * 128 + h.e * 64 + h.r * 32 + h.type) ≡ h
fu_of-fields h v = ground arith

-- The FU header that is decoded from an encoded one has the start bit of the original in the place
-- of its end bit; the other fields, and the bytes behind the header, are as they were.
pub fu_hdr_decode-encode :
    (h : Fu) (rest : Bytes)
    → IsFu h
    → fu_hdr_decode (fu_hdr_encode h ∷ rest) ≡ some (record h { e = h.s }, rest)
unfolding fu_hdr_decode
fu_hdr_decode-encode h rest v =
    let n : ℕ = h.s * 128 + h.e * 64 + h.r * 32 + h.type in
    let e : fu_hdr_fields (fu_hdr_encode (fu_of n)) ≡ record (fu_of n) { e = n / 128 } =
      same_fu-eq _ _ (all_below_sound 256 _ n fu_table (omega (arith, v))) in
    ap (λ x. some (x, rest))
      (subst (λ x. fu_hdr_fields (fu_hdr_encode x) ≡ record x { e = x.s }) (fu_of-fields h v) e)
