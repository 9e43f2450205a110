-- ===== src/Startcode/Packetize.antt =====
-- Cutting an H.264 byte stream into NAL units (jni/baresip/modules/avcodec/h264.c, h264_packetize).
use bare_sip_android.Prelude.{
  ℕ, zero, suc, ◌+◌, ◌-◌, ◌%◌, ◌^◌, Bool, Option, none, some, List, [], ◌∷◌, ltb, leb, ◌==◌,
  if◌then◌else◌,
}
use bare_sip_android.Startcode.Search.{h264_find_startcode}

-- What the queue or h264_nal_send is given: the header byte, the address and the size of the bytes
-- behind it, and whether the unit is the last one.
pub record Nal : Type 0 where
  pub last : Bool
  pub hdr : ℕ
  pub buf : ℕ
  pub size : ℕ

module _ (mem : ℕ → ℕ) where
  -- `while (!*(r++));`: behind the first byte that is not zero; `none` means that the fuel ran out
  unfoldable pub skip_zeros : ℕ → ℕ → Option ℕ
  skip_zeros zero r = none
  skip_zeros (suc fuel) r =
      let rest = skip_zeros fuel (r + 1) in if mem r == 0 then rest else some (r + 1)

  -- the unit at `r` up to `r1`; the size is that of a `size_t` of 32 bits
  abbrev pub nal : ℕ → ℕ → ℕ → Nal
  nal end r r1 = record {
    last = leb end r1;
    hdr = mem r;
    buf = r + 1;
    size = (r1 + 2 ^ 32 - (r + 1)) % 2 ^ 32;
  }

  abbrev pub cons_nal : Nal → Option (List Nal) → Option (List Nal)
  cons_nal u none = none
  cons_nal u (some us) = some (u ∷ us)

  -- one round of `while (r < end)`, behind the zeros
  abbrev pub with_start : ℕ → (ℕ → Option (List Nal)) → Option ℕ → Option (List Nal)
  with_start end next none = none
  with_start end next (some r) =
      let r1 = h264_find_startcode mem r end in cons_nal (nal end r r1) (next r1)

  unfoldable pub packetize_units : ℕ → ℕ → ℕ → Option (List Nal)
  unfolding skip_zeros h264_find_startcode
  packetize_units zero end r = none
  packetize_units (suc fuel) end r =
      let more = with_start end (packetize_units fuel end) (skip_zeros (end - r) r) in
      if ltb r end then more else some []

  unfoldable pub h264_packetize : ℕ → ℕ → Option (List Nal)
  h264_packetize start end = packetize_units (end + 1) end (h264_find_startcode mem start end)
