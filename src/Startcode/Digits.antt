-- ===== src/Startcode/Digits.antt =====
-- Binary digits of a bitwise `and`, for the test of a word for a zero byte
-- (jni/baresip/modules/avcodec/h264.c, h264_find_startcode).
use Prim.Native.Nat.{min, digits, bit_and-bitwise}
use bare_sip_android.Prelude.{
  ℕ, zero, suc, ◌+◌, ◌*◌, ◌/◌, ◌%◌, ◌≤◌, ◌<◌, bit_and, ◌≡◌, ◌≢◌, refl, sym, ap, ◌∙◌, arith,
}

-- the number without its last `k` digits
abbrev pub halve : ℕ → ℕ → ℕ
halve zero a = a
halve (suc k) a = halve k (a / 2)

abbrev pub scale : ℕ → ℕ → ℕ
scale zero h = h
scale (suc k) h = scale k h * 2

pub halve-scale : (k h r : ℕ) → r < scale k 1 → halve k (scale k h + r) ≡ h
halve-scale zero h r lt = omega (arith, lt)
halve-scale (suc k) h r lt =
    let e : (scale k h * 2 + r) / 2 ≡ scale k h + r / 2 = omega arith in
    ap (halve k) e ∙ halve-scale k h (r / 2) (omega (arith, lt))

pub halve_zero : (k : ℕ) → halve k 0 ≡ 0
halve_zero zero = refl
halve_zero (suc k) = halve_zero k

-- counts of digits that are large enough give the same
digits-enough :
    (n m a b : ℕ) → a ≤ n → a ≤ m → digits (λ b. zero) min n a b ≡ digits (λ b. zero) min m a b
digits-enough zero zero a b hn hm = refl
digits-enough zero (suc m) zero b hn hm = refl
digits-enough zero (suc m) (suc a) b hn hm = absurd (omega (arith, hn))
digits-enough (suc n) zero zero b hn hm = refl
digits-enough (suc n) zero (suc a) b hn hm = absurd (omega (arith, hm))
digits-enough (suc n) (suc m) zero b hn hm = refl
digits-enough (suc n) (suc m) (suc a) b hn hm =
    ap (λ d. d * 2 + min (suc a % 2) (b % 2))
      (digits-enough n m (suc a / 2) (b / 2) (omega (arith, hn)) (omega (arith, hm)))

-- the last digit, and the others
bit_and-digits : (a b : ℕ) → bit_and a b ≡ bit_and (a / 2) (b / 2) * 2 + min (a % 2) (b % 2)
bit_and-digits zero b = omega (arith, bit_and-bitwise 0 b, bit_and-bitwise 0 (b / 2))
bit_and-digits (suc a) b =
    bit_and-bitwise (suc a) b
    ∙ ap (λ d. d * 2 + min (suc a % 2) (b % 2))
        (digits-enough a (suc a / 2) (suc a / 2) (b / 2) (omega arith) (omega arith)
          ∙ sym (bit_and-bitwise (suc a / 2) (b / 2)))

pub halve-bit_and : (k a b : ℕ) → halve k (bit_and a b) ≡ bit_and (halve k a) (halve k b)
halve-bit_and zero a b = refl
halve-bit_and (suc k) a b =
    let e : bit_and a b / 2 ≡ bit_and (a / 2) (b / 2) = omega (arith, bit_and-digits a b) in
    ap (halve k) e ∙ halve-bit_and k (a / 2) (b / 2)

pub bit_and_odd : (a b : ℕ) → a % 2 ≡ 1 → b % 2 ≡ 1 → bit_and a b % 2 ≡ 1
bit_and_odd a b ea eb = omega (arith, bit_and-digits a b, ea, eb)

-- three numbers with a digit in common
pub and_three :
    (k a b m : ℕ)
    → halve k a % 2 ≡ 1
    → halve k b % 2 ≡ 1
    → halve k m % 2 ≡ 1
    → bit_and (bit_and a b) m ≢ 0
and_three k a b m ea eb em z =
    let odd =
      bit_and_odd (bit_and (halve k a) (halve k b)) (halve k m) (bit_and_odd _ _ ea eb) em in
    let same : halve k 0 ≡ bit_and (bit_and (halve k a) (halve k b)) (halve k m) =
      ap (halve k) (sym z)
      ∙ halve-bit_and k (bit_and a b) m
      ∙ ap (λ x. bit_and x (halve k m)) (halve-bit_and k a b) in
    absurd (omega (arith, odd, same, halve_zero k))
