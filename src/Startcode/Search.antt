-- ===== src/Startcode/Search.antt =====
-- The search for a start sequence (jni/baresip/modules/avcodec/h264.c, h264_find_startcode). Memory
-- is a function from addresses to bytes, and the machine is little-endian. The loops are on the
-- number of rounds that their bounds leave; a loop is left with an address that is found, or at its
-- bound.
use Prim.Native.Nat.{min}
use bare_sip_android.Prelude.{
  ℕ, zero, suc, ◌+◌, ◌-◌, ◌*◌, ◌/◌, ◌%◌, ◌^◌, bit_and, Bool, not, ◌&&◌, ◌==◌, if◌then◌else◌,
}

pub data Scan : Type 0 where
  found reached : ℕ → Scan

-- `(x - 0x01010101) & (~x) & 0x80808080`
unfoldable pub zero_test : ℕ → Bool
zero_test x =
    not (bit_and (bit_and ((x + 2 ^ 32 - 0x01010101) % 2 ^ 32) (2 ^ 32 - 1 - x)) 0x80808080 == 0)

-- the result of the last loop: at its bound, `end + 3`
abbrev pub after_bytes : ℕ → Scan → ℕ
after_bytes end (found q) = q
after_bytes end (reached p) = end

module _ (mem : ℕ → ℕ) where
  unfoldable pub startcode : ℕ → Bool
  startcode p = mem p == 0 && mem (p + 1) == 0 && mem (p + 2) == 1

  unfoldable pub byte_loop : ℕ → ℕ → Scan
  byte_loop zero p = reached p
  byte_loop (suc n) p = let rest = byte_loop n (p + 1) in if startcode p then found p else rest

  abbrev pub word : ℕ → ℕ
  word p = mem p + mem (p + 1) * 2 ^ 8 + mem (p + 2) * 2 ^ 16 + mem (p + 3) * 2 ^ 24

  -- one round of the loop over words: the address that it returns, or `rest`
  unfoldable pub in_word : ℕ → Scan → Scan
  in_word p rest =
      if mem (p + 1) == 0 && mem p == 0 && mem (p + 2) == 1
      then found p
      else if mem (p + 1) == 0 && mem (p + 2) == 0 && mem (p + 3) == 1
      then found (p + 1)
      else if mem (p + 3) == 0 && mem (p + 2) == 0 && mem (p + 4) == 1
      then found (p + 2)
      else if mem (p + 3) == 0 && mem (p + 4) == 0 && mem (p + 5) == 1
      then found (p + 3)
      else rest

  unfoldable pub word_loop : ℕ → ℕ → Scan
  unfolding zero_test in_word
  word_loop zero p = reached p
  word_loop (suc n) p =
      let rest = word_loop n (p + 4) in if zero_test (word p) then in_word p rest else rest

  abbrev pub after_words : ℕ → Scan → ℕ
  after_words end (found q) = q
  after_words end (reached p) = after_bytes end (byte_loop (end - 3 - p) p)

  abbrev pub after_head : ℕ → Scan → ℕ
  after_head end (found q) = q
  after_head end (reached p) = after_words end (word_loop ((end - 3 - 3 + 3 - p) / 4) p)

  unfoldable pub h264_find_startcode : ℕ → ℕ → ℕ
  unfolding byte_loop word_loop
  h264_find_startcode p end =
      let a = p + 4 - bit_and p 3 in after_head end (byte_loop (min a (end - 3) - p) p)
