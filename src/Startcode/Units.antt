-- ===== src/Startcode/Units.antt =====
-- The NAL units of a byte stream (jni/baresip/modules/avcodec/h264.c, h264_packetize).
use bare_sip_android.Prelude.{
  ℕ, zero, suc, ◌+◌, ◌-◌, ◌^◌, ◌≤◌, ◌<◌, ◌≡◌, ◌↔◌, ◌⊎◌, inl, inr, refl, ap, ◌∙◌, true, some, List,
  [], ◌∷◌, arith, dec_lt,
}
use bare_sip_android.Startcode.Search.{startcode, h264_find_startcode}
use bare_sip_android.Startcode.Least.{Least, h264_find_startcode-Least}
use bare_sip_android.Startcode.Packetize.{
  Nal, skip_zeros, nal, with_start, cons_nal, packetize_units, h264_packetize,
}

module _ (mem : ℕ → ℕ) where
  -- The unit behind the start sequence at `r`, with the next one, or the end, at `r1`: its header is
  -- the first byte and its other bytes go up to `r1`, and it is the last one exactly at the end.
  -- Where `r1` follows at once the size is that of -1 byte as a number of 32 bits.
  abbrev pub Cut : ℕ → ℕ → ℕ → Nal → Type 0
  Cut end r r1 u =
      (u.hdr ≡ mem (r + 3))
      × (u.buf ≡ r + 4)
      × ((u.last ≡ true) ↔ (r1 ≡ end))
      × (((r + 3 < r1) × (u.buf + u.size ≡ r1)) ⊎ ((r1 ≡ r + 3) × (u.size ≡ 4294967295)))

  -- the units from the start sequence at `r` on
  abbrev pub Units : ℕ → ℕ → List Nal → Type 0
  Units end r [] = r ≡ end
  Units end r (u ∷ us) =
      (startcode mem r ≡ true)
      × ((r1 : ℕ) × Least mem (r + 3) end r1 × Cut end r r1 u × Units end r1 us)

  -- where the loop stands: at the end, or at a start sequence with a byte behind it
  abbrev Stands : ℕ → ℕ → Type 0
  Stands end r = (r ≡ end) ⊎ ((r + 3 < end) × (startcode mem r ≡ true))

  Least-Stands : (p end r : ℕ) → Least mem p end r → Stands end r
  Least-Stands p end r (inl (lo, hi, e, c)) = inr (hi, e)
  Least-Stands p end r (inr (e, c)) = inl e

  skip_zeros-startcode :
      (n r : ℕ) → startcode mem r ≡ true → skip_zeros mem (suc (suc (suc n))) r ≡ some (r + 3)
  unfolding skip_zeros startcode
  skip_zeros-startcode n r e = ground arith

  Least-lower : (p end r : ℕ) → p ≤ end → Least mem p end r → p ≤ r
  Least-lower p end r h (inl (lo, hi, e, c)) = lo
  Least-lower p end r h (inr (e, c)) = omega (arith, h, e)

  Least-upper : (p end r : ℕ) → Least mem p end r → r ≤ end
  Least-upper p end r (inl (lo, hi, e, c)) = omega (arith, hi)
  Least-upper p end r (inr (e, c)) = omega (arith, e)

  nal-Cut :
      (end r r1 : ℕ) → r + 3 ≤ r1 → r1 ≤ end → end < 2 ^ 32 → Cut end r r1 (nal mem end (r + 3) r1)
  nal-Cut end r r1 lo hi small = (
    refl,
    omega arith,
    (λ e. ground (arith, e, hi), λ e. ground (arith, e)),
    elim (dec_lt (r + 3) r1) [
      | yes b ↦ inl (b, omega (arith, b, hi, small))
      | no a ↦ inr (omega (arith, a, lo), omega (arith, a, lo, hi, small))
    ],
  )

  module _ (bytes : (i : ℕ) → mem i < 256) (end : ℕ) (room : 6 ≤ end) (small : end < 2 ^ 32) where
    packetize_units-step :
        (fuel r : ℕ)
        → r + 3 < end
        → startcode mem r ≡ true
        → packetize_units mem (suc fuel) end r
          ≡ with_start mem end (packetize_units mem fuel end) (some (r + 3))
    unfolding packetize_units
    packetize_units-step fuel r hi e =
        let n : end - r ≡ suc (suc (suc (end - r - 3))) = omega (arith, hi) in
        let z : skip_zeros mem (end - r) r ≡ some (r + 3) =
          ap (λ k. skip_zeros mem k r) n ∙ skip_zeros-startcode (end - r - 3) r e in
        rw z (ground (arith, hi))

    packetize_units-Units :
        (fuel r : ℕ)
        → end - r < fuel
        → Stands end r
        → (us : List Nal) × (packetize_units mem fuel end r ≡ some us) × Units end r us
    packetize_units-Units zero r lt s = absurd (omega (arith, lt))
    packetize_units-Units (suc fuel) r lt (inl e) =
        ([], unfold packetize_units in ground (arith, e), e)
    packetize_units-Units (suc fuel) r lt (inr (hi, e)) =
        let r1 = h264_find_startcode mem (r + 3) end in
        let least = h264_find_startcode-Least mem (r + 3) end bytes room in
        let lower = Least-lower (r + 3) end r1 (omega (arith, hi)) least in
        let (us, eq, units) =
          packetize_units-Units fuel r1 (omega (arith, lt, hi, lower))
            (Least-Stands (r + 3) end r1 least) in
        (
          nal mem end (r + 3) r1 ∷ us,
          packetize_units-step fuel r hi e ∙ ap (cons_nal mem (nal mem end (r + 3) r1)) eq,
          (e, (r1, least, nal-Cut end r r1 lower (Least-upper (r + 3) end r1 least) small, units)),
        )

-- In a memory of bytes, and for an end address of at least 6 and of 32 bits, the stream is cut into
-- the units between its start sequences, from the first one on and in order: each is given with the
-- byte behind its start sequence as its header, and the bytes behind that one up to the next start
-- sequence or the end; exactly at the end it is marked as the last. Only where another start
-- sequence follows at once, its size is 2 ^ 32 - 1. The work ends.
pub h264_packetize-Units :
    (mem : ℕ → ℕ) (start end : ℕ)
    → ((i : ℕ) → mem i < 256)
    → 6 ≤ end
    → end < 2 ^ 32
    → (us : List Nal) × (h264_packetize mem start end ≡ some us)
      × ((r : ℕ) × Least mem start end r × Units mem end r us)
unfolding h264_packetize
h264_packetize-Units mem start end bytes room small =
    let r = h264_find_startcode mem start end in
    let least = h264_find_startcode-Least mem start end bytes room in
    let (us, eq, units) =
      packetize_units-Units mem bytes end room small (end + 1) r (omega arith)
        (Least-Stands mem start end r least) in
    (us, eq, (r, least, units))
