-- ===== src/Vpx/PictureId.antt =====
-- The variable-length picture identifier of VP8 packets (jni/baresip/modules/vpx/vpx.c, picid_enc
-- and picid_dec). `x & 0x7f` is `x % 128`, a shift by seven a division or multiplication by 128,
-- and `b |= 0x80` adds 128 to a number below 128.
use native.Mathlib.Nat.{pow-suc}
use bare_sip_android.Prelude.{
  ℕ, zero, suc, ◌+◌, ◌*◌, ◌/◌, ◌%◌, ◌^◌, ◌<◌, ◌≡◌, ◌∙◌, Option, none, some, [], ◌∷◌, ◌++◌, inl, inr,
  arith, leb, ◌==◌, if◌then◌else◌, Bytes, Bool-cases,
}

-- the buffer of `picid_enc`
abbrev pub picid_buf : ℕ
picid_buf = 8

-- a group of seven bits, with the flag of those that are not the last
abbrev group : Bytes → ℕ → ℕ
group [] b = b
group (_ ∷ _) b = b + 128

-- The `do … while (picid)` loop. The number is the room that is left in front of `p`, and `none` is
-- a write in front of the buffer.
unfoldable pub picid_loop : ℕ → Bytes → ℕ → Option Bytes
picid_loop zero written picid = none
picid_loop (suc room) written picid =
    let b = group written (picid % 128) in
    let rest = picid_loop room (b ∷ written) (picid / 128) in
    if picid / 128 == 0 then some (b ∷ written) else rest

unfoldable pub picid_enc : ℕ → Option Bytes
unfolding picid_loop
picid_enc picid = picid_loop picid_buf [] picid

-- `none` is the error EBADMSG, for want of a byte
unfoldable pub picid_loop_dec : ℕ → Bytes → Option (ℕ × Bytes)
picid_loop_dec v [] = none
picid_loop_dec v (b ∷ rest) =
    let v' = v * 128 % 2 ^ 64 + b % 128 in
    let later = picid_loop_dec v' rest in if leb 128 b then later else some (v', rest)

unfoldable pub picid_dec : Bytes → Option (ℕ × Bytes)
unfolding picid_loop_dec
picid_dec src = picid_loop_dec 0 src

-- one step of the decoder, on the last group of seven bits of a number
dec_more :
    (picid : ℕ) (rest : Bytes)
    → picid < 2 ^ 56
    → picid_loop_dec (picid / 128) ((picid % 128 + 128) ∷ rest) ≡ picid_loop_dec picid rest
unfolding picid_loop_dec
dec_more picid rest small =
    let e : picid / 128 * 128 % 2 ^ 64 + (picid % 128 + 128) % 128 ≡ picid = omega arith in
    ground (arith, e)

dec_last :
    (picid : ℕ) (rest : Bytes)
    → picid < 2 ^ 56
    → picid_loop_dec (picid / 128) (picid % 128 ∷ rest) ≡ some (picid, rest)
unfolding picid_loop_dec
dec_last picid rest small =
    let e : picid / 128 * 128 % 2 ^ 64 + picid % 128 % 128 ≡ picid = omega arith in
    ground (arith, e)

-- all that is written in front of `a ∷ acc` is read back before them
picid_loop-read :
    (room a picid : ℕ) (acc bs rest : Bytes)
    → picid < 2 ^ 56
    → picid_loop room (a ∷ acc) picid ≡ some bs
    → picid_loop_dec 0 (bs ++ rest) ≡ picid_loop_dec picid ((a ∷ acc) ++ rest)
unfolding picid_loop
picid_loop-read zero a picid acc bs rest small e = cc
picid_loop-read (suc room) a picid acc bs rest small e = elim (Bool-cases (picid / 128 == 0)) [
  | inl done ↦ ground (arith, dec_more picid ((a ∷ acc) ++ rest))
  | inr more ↦
      picid_loop-read room (picid % 128 + 128) (picid / 128) (a ∷ acc) bs rest (omega arith)
        (rw more at e)
      ∙ dec_more picid ((a ∷ acc) ++ rest) small
]

-- eight groups have room for 56 bits
picid_loop_total :
    (room picid : ℕ) (written : Bytes)
    → picid < 128 ^ suc room
    → (bs : Bytes) × (picid_loop (suc room) written picid ≡ some bs)
unfolding picid_loop
picid_loop_total zero picid written small = (group written (picid % 128) ∷ written, ground arith)
picid_loop_total (suc room) picid written small = elim (Bool-cases (picid / 128 == 0)) [
  | inl done ↦ (group written (picid % 128) ∷ written, rw done)
  | inr more ↦
      let e : 128 ^ suc (suc room) ≡ 128 ^ suc room * 128 = pow-suc 128 (suc room) in
      rw more (
        picid_loop_total room (picid / 128) (group written (picid % 128) ∷ written)
          (omega (arith, e)))
]

picid_loop-read_all :
    (room picid : ℕ) (bs rest : Bytes)
    → picid < 2 ^ 56
    → picid_loop (suc room) [] picid ≡ some bs
    → picid_loop_dec 0 (bs ++ rest) ≡ some (picid, rest)
unfolding picid_loop
picid_loop-read_all room picid bs rest small e = elim (Bool-cases (picid / 128 == 0)) [
  | inl done ↦ ground (arith, dec_last picid rest)
  | inr more ↦
      picid_loop-read room (picid % 128) (picid / 128) [] bs rest (omega arith) (rw more at e)
      ∙ dec_last picid rest small
]

-- A picture identifier below 2 ^ 56 fits the buffer, and the decoder reads it back and leaves the
-- bytes behind it.
pub picid_dec-enc :
    (picid : ℕ) (rest : Bytes)
    → picid < 2 ^ 56
    → (bs : Bytes) × (picid_enc picid ≡ some bs) × (picid_dec (bs ++ rest) ≡ some (picid, rest))
unfolding picid_enc picid_dec
picid_dec-enc picid rest small =
    let (bs, e) = picid_loop_total 7 picid [] small in
    (bs, e, picid_loop-read_all 7 picid bs rest small e)
