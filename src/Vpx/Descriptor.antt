-- ===== src/Vpx/Descriptor.antt =====
-- The payload descriptor of VP8 packets (jni/baresip/modules/vpx/vpx.c, vp8desc_enc and
-- vp8desc_dec).
use bare_sip_android.Prelude.{
  ℕ, ◌*◌, ◌/◌, ◌%◌, ◌^◌, ◌<◌, bit_and, bit_or, ◌≡◌, refl, ap, Bool, true, false, ◌&&◌, Option, none,
  some, [], ◌∷◌, ◌++◌, arith, ◌==◌, if◌then◌else◌, Bytes, mbuf_write, mbuf_write_room, all_below,
  all_below_sound, append_assoc,
}
use bare_sip_android.Vpx.PictureId.{picid_enc, picid_dec, picid_dec-enc}

-- fragmentation information
abbrev pub fi_none : ℕ
fi_none = 0

abbrev pub fi_first : ℕ
fi_first = 1

abbrev pub fi_middle : ℕ
fi_middle = 2

abbrev pub fi_last : ℕ
fi_last = 3

pub record Vp8Desc : Type 0 where
  pub i : ℕ
  pub n : ℕ
  pub fi : ℕ
  pub b : ℕ
  pub picid : ℕ

abbrev pub bit : Bool → ℕ
bit true = 1
bit false = 0

unfoldable pub desc_byte : ℕ → ℕ → ℕ → ℕ → ℕ
desc_byte i n fi b = bit_or (bit_or (bit_or (i * 16) (n * 8)) (fi * 2)) b % 256

-- The buffer and the error code; `none` is the write of `picid_enc` in front of its buffer.
abbrev pub enc_picid : (ℕ → Bool) → Bytes → ℕ → Option Bytes → Option (Bytes × ℕ)
enc_picid room mb err none = none
enc_picid room mb err (some bs) = let (mb', e) = mbuf_write room mb bs in some (mb', bit_or err e)

unfoldable pub vp8desc_enc : (ℕ → Bool) → Bytes → Bool → Bool → ℕ → Bool → ℕ → Option (Bytes × ℕ)
vp8desc_enc room mb i n fi b picid =
    let (mb', err) = mbuf_write room mb (desc_byte (bit i) (bit n) fi (bit b) ∷ []) in
    if i then enc_picid room mb' err (picid_enc picid) else some (mb', err)

-- `picid` is left at what it was where the descriptor has none
abbrev with_picid : Vp8Desc → Option (ℕ × Bytes) → Option (Vp8Desc × Bytes)
with_picid desc none = none
with_picid desc (some (picid, rest)) = some (record desc { picid = picid }, rest)

unfoldable pub desc_fields : ℕ → ℕ → Vp8Desc
desc_fields u8 picid = record {
  i = bit_and (u8 / 16) 1;
  n = bit_and (u8 / 8) 1;
  fi = bit_and (u8 / 2) 3;
  b = bit_and u8 1;
  picid = picid;
}

-- The number is what `desc->picid` holds before; `none` is the error EBADMSG.
unfoldable pub vp8desc_dec : ℕ → Bytes → Option (Vp8Desc × Bytes)
unfolding desc_fields
vp8desc_dec old [] = none
vp8desc_dec old (u8 ∷ rest) =
    let desc = desc_fields u8 old in
    if desc.i == 0 then some (desc, rest) else with_picid desc (picid_dec rest)

abbrev reads_back : ℕ → ℕ → ℕ → ℕ → Bool
reads_back i n fi b =
    let d = desc_fields (desc_byte i n fi b) 0 in d.i == i && d.n == n && d.fi == fi && d.b == b

abbrev reads_back_below : ℕ → ℕ → ℕ → Bool
reads_back_below i n fi = all_below 2 (reads_back i n fi)

abbrev reads_back_fi : ℕ → ℕ → Bool
reads_back_fi i n = all_below 4 (reads_back_below i n)

abbrev reads_back_n : ℕ → Bool
reads_back_n i = all_below 2 (reads_back_fi i)

desc_table : all_below 2 reads_back_n ≡ true
unfolding all_below desc_fields desc_byte
desc_table = refl

bit-lt : (b : Bool) → bit b < 2
bit-lt true = omega arith
bit-lt false = omega arith

desc_fields-byte :
    (i n b : Bool) (fi picid : ℕ)
    → fi < 4
    → desc_fields (desc_byte (bit i) (bit n) fi (bit b)) picid
      ≡ record { i = bit i; n = bit n; fi = fi; b = bit b; picid = picid }
unfolding desc_fields
desc_fields-byte i n b fi picid small =
    let e1 = all_below_sound 2 reads_back_n (bit i) desc_table (bit-lt i) in
    let e2 = all_below_sound 2 (reads_back_fi (bit i)) (bit n) e1 (bit-lt n) in
    let e3 = all_below_sound 4 (reads_back_below (bit i) (bit n)) fi e2 small in
    let e4 = all_below_sound 2 (reads_back (bit i) (bit n) fi) (bit b) e3 (bit-lt b) in
    ground (arith, e4)

-- A descriptor with a picture identifier below 2 ^ 56 is appended whole, with no error, where
-- memory does not lack, and the decoder reads back each field and leaves the bytes behind it.
pub vp8desc_dec-enc :
    (room : ℕ → Bool) (mb rest : Bytes) (n b : Bool) (fi picid old : ℕ)
    → ((k : ℕ) → room k ≡ true)
    → fi < 4
    → picid < 2 ^ 56
    → (bs : Bytes) × (vp8desc_enc room mb true n fi b picid ≡ some (mb ++ bs, 0))
      × (vp8desc_dec old (bs ++ rest)
          ≡ some (record { i = 1; n = bit n; fi = fi; b = bit b; picid = picid }, rest))
unfolding vp8desc_enc vp8desc_dec
vp8desc_dec-enc room mb rest n b fi picid old memory small fits =
    let (bs, e, d) = picid_dec-enc picid rest fits in
    let u8 = desc_byte 1 (bit n) fi (bit b) in
    (
      u8 ∷ bs,
      rw
          (
            mbuf_write_room room mb (u8 ∷ []) memory,
            e,
            mbuf_write_room room (mb ++ u8 ∷ []) bs memory,
          )
          (ap (λ (x : Bytes). some (x, 0)) (append_assoc mb (u8 ∷ []) bs)),
      ground (arith, desc_fields-byte true n b fi old small, d),
    )
