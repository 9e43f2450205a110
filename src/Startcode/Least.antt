-- ===== src/Startcode/Least.antt =====
-- The search for a start sequence finds the first one (jni/baresip/modules/avcodec/h264.c,
-- h264_find_startcode).
use Prim.Native.Nat.{min}
use bare_sip_android.Prelude.{
  ℕ, zero, suc, ◌+◌, ◌-◌, ◌*◌, ◌/◌, ◌^◌, ◌≤◌, ◌<◌, bit_and, ◌≡◌, ◌⊎◌, refl, sym, ap, subst, ◌∙◌,
  true, false, if◌then◌else◌, arith, Bool-cases, inl, inr, ltb,
}
use bare_sip_android.Startcode.Search.{
  Scan, found, reached, startcode, byte_loop, word, zero_test, in_word, word_loop, after_bytes,
  after_words, after_head, h264_find_startcode,
}
use bare_sip_android.Startcode.Words.{zero_test-second, zero_test-fourth}

module _ (mem : ℕ → ℕ) where
  -- no start sequence begins from `p` on and before `q`
  abbrev pub Clear : ℕ → ℕ → Type 0
  Clear p q = (i : ℕ) → p ≤ i → i < q → startcode mem i ≡ false

  -- A start sequence that fits before the last byte, and none before it, or `end` and none.
  abbrev pub Least : ℕ → ℕ → ℕ → Type 0
  Least p end r =
      ((p ≤ r) × (r + 3 < end) × (startcode mem r ≡ true) × Clear p r)
      ⊎ ((r ≡ end) × Clear p (end - 3))

  abbrev Scanned : ℕ → ℕ → Scan → Type 0
  Scanned p stop (found q) = (p ≤ q) × (q < stop) × (startcode mem q ≡ true) × Clear p q
  Scanned p stop (reached r) = (r ≡ stop) × Clear p r

  Clear-join : (p r q : ℕ) → Clear p r → Clear r q → Clear p q
  Clear-join p r q c d i lo hi = elim (Bool-cases (ltb i r)) [
    | inl before ↦ c i lo (ground arith)
    | inr behind ↦ d i (ground arith) hi
  ]

  Scanned-join : (p r stop : ℕ) (s : Scan) → p ≤ r → Clear p r → Scanned r stop s → Scanned p stop s
  Scanned-join p r stop (found q) le c (lo, hi, e, d) =
      (omega (arith, le, lo), hi, e, Clear-join p r q c d)
  Scanned-join p r stop (reached q) le c (e, d) = (e, Clear-join p r q c d)

  Clear-one : (p : ℕ) → startcode mem p ≡ false → Clear p (p + 1)
  Clear-one p e i lo hi =
      let same : p ≡ i = omega (arith, lo, hi) in subst (λ x. startcode mem x ≡ false) same e

  byte_loop-Scanned : (n p stop : ℕ) → p + n ≡ stop → Scanned p stop (byte_loop mem n p)
  unfolding byte_loop
  byte_loop-Scanned zero p stop e = (omega (arith, e), λ i lo hi. absurd (omega (arith, lo, hi)))
  byte_loop-Scanned (suc n) p stop e = elim (Bool-cases (startcode mem p)) [
    | inl here ↦
        rw here (omega arith, omega (arith, e), here, λ i lo hi. absurd (omega (arith, lo, hi)))
    | inr other ↦ rw other (
        Scanned-join p (p + 1) stop (byte_loop mem n (p + 1)) (omega arith) (Clear-one p other)
          (byte_loop-Scanned n (p + 1) stop (omega (arith, e))))
  ]

  -- four rounds of the loop over bytes
  abbrev four : ℕ → Scan → Scan
  four p rest =
      if startcode mem p
      then found p
      else if startcode mem (p + 1)
      then found (p + 1)
      else if startcode mem (p + 2)
      then found (p + 2)
      else if startcode mem (p + 3)
      then found (p + 3)
      else rest

  in_word-four : (p : ℕ) (rest : Scan) → in_word mem p rest ≡ four p rest
  unfolding in_word startcode
  in_word-four p rest = ground arith

  byte_loop-four :
      (n p : ℕ) → byte_loop mem (suc (suc (suc (suc n)))) p ≡ four p (byte_loop mem n (p + 4))
  unfolding byte_loop
  byte_loop-four n p = ground arith

  module _ (bytes : (i : ℕ) → mem i < 256) where
    second : (p : ℕ) → mem (p + 1) ≡ 0 → zero_test (word mem p) ≡ true
    second p e =
        let eq : mem p + mem (p + 2) * 2 ^ 16 + mem (p + 3) * 2 ^ 24 ≡ word mem p =
          omega (arith, e) in
        subst (λ x. zero_test x ≡ true) eq
          (zero_test-second (mem p) (mem (p + 2)) (mem (p + 3)) (bytes p) (bytes (p + 2))
            (bytes (p + 3)))

    fourth : (p : ℕ) → mem (p + 3) ≡ 0 → zero_test (word mem p) ≡ true
    fourth p e =
        let eq : mem p + mem (p + 1) * 2 ^ 8 + mem (p + 2) * 2 ^ 16 ≡ word mem p =
          omega (arith, e) in
        subst (λ x. zero_test x ≡ true) eq
          (zero_test-fourth (mem p) (mem (p + 1)) (mem (p + 2)) (bytes p) (bytes (p + 1))
            (bytes (p + 2)))

    -- a word that fails the test holds no start sequence
    four-rest : (p : ℕ) (rest : Scan) → zero_test (word mem p) ≡ false → four p rest ≡ rest
    unfolding startcode
    four-rest p rest e = ground (arith, second p, fourth p)

    word_loop-step : (n p : ℕ) → word_loop mem (suc n) p ≡ four p (word_loop mem n (p + 4))
    unfolding word_loop
    word_loop-step n p = elim (Bool-cases (zero_test (word mem p))) [
      | inl e ↦ rw e (in_word-four p (word_loop mem n (p + 4)))
      | inr e ↦ rw e (sym (four-rest p (word_loop mem n (p + 4)) e))
    ]

    word_loop-byte_loop : (n p : ℕ) → word_loop mem n p ≡ byte_loop mem (n * 4) p
    word_loop-byte_loop zero p = unfold word_loop byte_loop in refl
    word_loop-byte_loop (suc n) p =
        word_loop-step n p
        ∙ ap (four p) (word_loop-byte_loop n (p + 4))
        ∙ sym (byte_loop-four (n * 4) p)
        ∙ ap (λ k. byte_loop mem k p) (omega arith)

    after_bytes-Least :
        (p q end : ℕ) (s : Scan)
        → Clear p q
        → p ≤ q
        → Scanned q (q + (end - 3 - q)) s
        → Least p end (after_bytes end s)
    after_bytes-Least p q end (found r) c le (lo, hi, e, d) =
        inl (omega (arith, le, lo), omega (arith, hi, lo), e, Clear-join p q r c d)
    after_bytes-Least p q end (reached r) c le (e, d) =
        inr (refl, λ i lo hi. Clear-join p q r c d i lo (omega (arith, hi, e)))

    after_words-Least :
        (p q end : ℕ) (s : Scan)
        → 6 ≤ end
        → Clear p q
        → p ≤ q
        → Scanned q (q + (end - 3 - 3 + 3 - q) / 4 * 4) s
        → Least p end (after_words mem end s)
    after_words-Least p q end (found r) room c le (lo, hi, e, d) =
        inl (omega (arith, le, lo), omega (arith, hi, lo, room), e, Clear-join p q r c d)
    after_words-Least p q end (reached r) room c le (e, d) =
        after_bytes-Least p r end (byte_loop mem (end - 3 - r) r) (Clear-join p q r c d)
          (omega (arith, le, e)) (byte_loop-Scanned (end - 3 - r) r _ refl)

    after_head-Least :
        (p a end : ℕ) (s : Scan)
        → 6 ≤ end
        → Scanned p (p + (min a (end - 3) - p)) s
        → Least p end (after_head mem end s)
    after_head-Least p a end (found r) room (lo, hi, e, d) =
        inl (lo, ground (arith, hi, lo, room), e, d)
    after_head-Least p a end (reached r) room (e, d) =
        let n = (end - 3 - 3 + 3 - r) / 4 in
        after_words-Least p r end (word_loop mem n r) room d (omega (arith, e))
          (rw (word_loop-byte_loop n r) (byte_loop-Scanned (n * 4) r _ refl))

-- In a memory of bytes, from any address on and for an end address of at least 6, the search, with
-- its loop over words, finds the first start sequence that ends before the last byte, or gives the
-- end address if there is none.
pub h264_find_startcode-Least :
    (mem : ℕ → ℕ) (p end : ℕ)
    → ((i : ℕ) → mem i < 256)
    → 6 ≤ end
    → Least mem p end (h264_find_startcode mem p end)
unfolding h264_find_startcode
h264_find_startcode-Least mem p end bytes room =
    let a = p + 4 - bit_and p 3 in
    after_head-Least mem bytes p a end (byte_loop mem (min a (end - 3) - p) p) room
      (byte_loop-Scanned mem (min a (end - 3) - p) p _ refl)
