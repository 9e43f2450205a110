-- ===== src/L16.antt =====
-- The 16-bit linear audio codec (jni/baresip/modules/l16/l16.c). The machine is little-endian, so
-- that mbuf_read_u16 and mbuf_write_u16 take the low byte first, and htons and ntohs swap.
-- A write that lacks memory is not modelled here.
use bare_sip_android.Prelude.{
  ℕ, zero, suc, ◌+◌, ◌*◌, ◌/◌, ◌%◌, ◌<◌, ◌≡◌, refl, sym, ap, ap₂, ◌∙◌, Option, none, some, [], ◌∷◌,
  ◌++◌, arith, Bytes, length, append_assoc, append-nil,
}

-- 16-bit byte swapping
unfoldable pub swap16 : ℕ → ℕ
swap16 v = v % 256 * 256 + v / 256

-- `while (mbuf_get_left(src) >= 2)`: a last odd byte stays unread
unfoldable pub encode : Bytes → Bytes → Bytes
unfolding swap16
encode dst [] = dst
encode dst (a ∷ []) = dst
encode dst (a ∷ b ∷ src) =
    let v = swap16 (a + b * 256) in encode (dst ++ v % 256 ∷ v / 256 ∷ []) src

-- What mbuf_read_u16 of the library re gives, and what it leaves to be read: with less than two
-- bytes left it gives 0 and reads nothing.
abbrev pub read_u16 : Bytes → ℕ × Bytes
read_u16 [] = (0, [])
read_u16 (a ∷ []) = (0, a ∷ [])
read_u16 (a ∷ b ∷ src) = (a + b * 256, src)

-- `while (mbuf_get_left(src))` on fuel; `none` means that the fuel ran out
unfoldable pub decode : ℕ → Bytes → Bytes → Option Bytes
unfolding swap16
decode zero dst src = none
decode (suc fuel) dst [] = some dst
decode (suc fuel) dst (a ∷ src) =
    let (v, rest) = read_u16 (a ∷ src) in
    let w = swap16 v in decode fuel (dst ++ w % 256 ∷ w / 256 ∷ []) rest

-- the bytes of each pair the other way round
abbrev pub swapped : Bytes → Bytes
swapped [] = []
swapped (a ∷ []) = []
swapped (a ∷ b ∷ src) = b ∷ a ∷ swapped src

-- every element is a byte
abbrev pub AreBytes : Bytes → Type 0
AreBytes [] = Unit
AreBytes (a ∷ src) = (a < 256) × AreBytes src

swap16-pair :
    (dst : Bytes) (a b : ℕ)
    → a < 256
    → b < 256
    → dst ++ (swap16 (a + b * 256) % 256) ∷ (swap16 (a + b * 256) / 256) ∷ [] ≡ dst ++ b ∷ a ∷ []
unfolding swap16
swap16-pair dst a b ha hb =
    let low : swap16 (a + b * 256) % 256 ≡ b = omega arith in
    let high : swap16 (a + b * 256) / 256 ≡ a = omega arith in
    ap (λ x. dst ++ x) (ap₂ (λ x y. x ∷ y ∷ []) low high)

encode-swapped : (dst src : Bytes) → AreBytes src → encode dst src ≡ dst ++ swapped src
unfolding encode
encode-swapped dst [] h = sym (append-nil dst)
encode-swapped dst (a ∷ []) h = sym (append-nil dst)
encode-swapped dst (a ∷ b ∷ src) (ha, (hb, h)) =
    ap (λ x. encode x src) (swap16-pair dst a b ha hb)
    ∙ encode-swapped (dst ++ b ∷ a ∷ []) src h
    ∙ append_assoc dst (b ∷ a ∷ []) (swapped src)

decode-swapped :
    (n : ℕ) (dst src : Bytes)
    → AreBytes src
    → length src ≡ 2 * n
    → decode (suc n) dst (swapped src) ≡ some (dst ++ src)
unfolding decode
decode-swapped n dst [] h e = ap some (sym (append-nil dst))
decode-swapped n dst (a ∷ []) h e = absurd (omega arith)
decode-swapped zero dst (a ∷ b ∷ src) h e = absurd (omega arith)
decode-swapped (suc n) dst (a ∷ b ∷ src) (ha, (hb, h)) e =
    ap (λ x. decode (suc n) x (swapped src)) (swap16-pair dst b a hb ha)
    ∙ decode-swapped n (dst ++ a ∷ b ∷ []) src h (omega arith)
    ∙ ap some (append_assoc dst (a ∷ b ∷ []) src)

-- Samples of a whole number of pairs of bytes are encoded and decoded to themselves, with a round
-- of the decoder for each sample and one to end.
pub decode-encode :
    (n : ℕ) (src : Bytes)
    → AreBytes src
    → length src ≡ 2 * n
    → decode (suc n) [] (encode [] src) ≡ some src
decode-encode n src h e = rw (encode-swapped [] src h) (decode-swapped n [] src h e)

-- The decoder never ends on a packet with an odd number of bytes, however many rounds it is given.
pub decode_odd :
    (fuel n : ℕ) (dst src : Bytes) → length src ≡ 2 * n + 1 → decode fuel dst src ≡ none
unfolding decode
decode_odd zero n dst src e = refl
decode_odd (suc fuel) n dst [] e = absurd (omega arith)
decode_odd (suc fuel) n dst (a ∷ []) e = decode_odd fuel n _ (a ∷ []) e
decode_odd (suc fuel) zero dst (a ∷ b ∷ src) e = absurd (omega arith)
decode_odd (suc fuel) (suc n) dst (a ∷ b ∷ src) e = decode_odd fuel n _ src (omega arith)
