-- ===== src/Startcode/Words.antt =====
-- The test of a word for a zero byte (jni/baresip/modules/avcodec/h264.c, h264_find_startcode): it
-- misses no word with a zero in its second or fourth byte.
use bare_sip_android.Prelude.{ℕ, ◌+◌, ◌-◌, ◌*◌, ◌/◌, ◌%◌, ◌^◌, ◌<◌, ◌≡◌, refl, ap, ◌∙◌, true, arith}
use bare_sip_android.Startcode.Digits.{halve, scale, halve-scale, and_three}
use bare_sip_android.Startcode.Search.{zero_test}

-- a number with a known digit
halve_odd : (k h r a : ℕ) → r < scale k 1 → a ≡ scale k (h * 2 + 1) + r → halve k a % 2 ≡ 1
halve_odd k h r a lt e =
    let d : halve k a ≡ h * 2 + 1 = ap (halve k) e ∙ halve-scale k (h * 2 + 1) r lt in
    omega (arith, d)

abbrev less : ℕ → ℕ
less x = (x + 2 ^ 32 - 0x01010101) % 2 ^ 32

abbrev others : ℕ → ℕ
others x = 2 ^ 32 - 1 - x

zero_test-true :
    (k x : ℕ)
    → halve k (less x) % 2 ≡ 1
    → halve k (others x) % 2 ≡ 1
    → halve k 0x80808080 % 2 ≡ 1
    → zero_test x ≡ true
unfolding zero_test
zero_test-true k x a b m = ground (arith, and_three k (less x) (others x) 0x80808080 a b m)

pub zero_test-second :
    (b0 b2 b3 : ℕ)
    → b0 < 256
    → b2 < 256
    → b3 < 256
    → zero_test (b0 + b2 * 2 ^ 16 + b3 * 2 ^ 24) ≡ true
zero_test-second b0 b2 b3 h0 h2 h3 =
    let x = b0 + b2 * 2 ^ 16 + b3 * 2 ^ 24 in
    zero_test-true 15 x
      (halve_odd 15 (less x / 65536) (32511 + b0) (less x) (omega (arith, h0))
        (omega (arith, h0, h2, h3)))
      (halve_odd 15 (others x / 65536) (32767 - b0) (others x) (omega (arith, h0))
        (omega (arith, h0, h2, h3)))
      refl

pub zero_test-fourth :
    (b0 b1 b2 : ℕ)
    → b0 < 256
    → b1 < 256
    → b2 < 256
    → zero_test (b0 + b1 * 2 ^ 8 + b2 * 2 ^ 16) ≡ true
zero_test-fourth b0 b1 b2 h0 h1 h2 =
    let x = b0 + b1 * 2 ^ 8 + b2 * 2 ^ 16 in
    zero_test-true 31 x
      (halve_odd 31 0 (less x - 2 ^ 31) (less x) (omega (arith, h0, h1, h2))
        (omega (arith, h0, h1, h2)))
      (halve_odd 31 0 (others x - 2 ^ 31) (others x) (omega (arith, h0, h1, h2))
        (omega (arith, h0, h1, h2)))
      refl
