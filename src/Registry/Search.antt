-- ===== src/Registry/Search.antt =====
-- The search that the registries share: the first object of a list that is not passed over
-- (jni/baresip/src/aucodec.c, vidcodec.c, ausrc.c, vidsrc.c).
use bare_sip_android.Prelude.{
  ◌≡◌, inl, inr, refl, ap, Bool, true, false, Option, none, some, List, [], ◌∷◌, ◌++◌,
  if◌then◌else◌, Bool-cases, All, or_else, arith,
}

module _ {A : Type 0} where
  -- the loop with `continue` for what is not wanted
  unfoldable pub first_wanted : (A → Bool) → List A → Option A
  first_wanted wanted [] = none
  first_wanted wanted (x ∷ xs) =
      let rest = first_wanted wanted xs in if wanted x then some x else rest

  -- An object is wanted and no earlier one is, or no object is.
  abbrev pub First : (A → Bool) → List A → Option A → Type 0
  First wanted xs none = All (λ x. wanted x ≡ false) xs
  First wanted xs (some a) =
      (pre : List A) × (post : List A) × (xs ≡ pre ++ a ∷ post)
      × (wanted a ≡ true)
      × All (λ x. wanted x ≡ false) pre

  cons-First :
      (wanted : A → Bool) (x : A) (xs : List A) (o : Option A)
      → wanted x ≡ false
      → First wanted xs o
      → First wanted (x ∷ xs) o
  cons-First wanted x xs none miss f = (miss, f)
  cons-First wanted x xs (some a) miss (pre, post, e, hit, f) =
      (x ∷ pre, post, ap (◌∷◌ x) e, hit, (miss, f))

  pub first_wanted-First :
      (wanted : A → Bool) (xs : List A) → First wanted xs (first_wanted wanted xs)
  unfolding first_wanted
  first_wanted-First wanted [] = tt
  first_wanted-First wanted (x ∷ xs) = elim (Bool-cases (wanted x)) [
    | inl hit ↦ rw hit ([], xs, refl, hit, tt)
    | inr miss ↦ rw miss (cons-First wanted x xs _ miss (first_wanted-First wanted xs))
  ]

  pub first_wanted-split :
      (wanted : A → Bool) (pre post : List A) (a : A)
      → wanted a ≡ true
      → All (λ x. wanted x ≡ false) pre
      → first_wanted wanted (pre ++ a ∷ post) ≡ some a
  unfolding first_wanted
  first_wanted-split wanted [] post a hit u = rw hit refl
  first_wanted-split wanted (x ∷ pre) post a hit (miss, u) =
      rw miss (first_wanted-split wanted pre post a hit u)

  -- an object at the end is found if no other is
  pub first_wanted-append :
      (wanted : A → Bool) (xs : List A) (a : A)
      → first_wanted wanted (xs ++ a ∷ [])
        ≡ or_else (first_wanted wanted xs) (if wanted a then some a else none)
  unfolding first_wanted
  first_wanted-append wanted [] a = ground arith
  first_wanted-append wanted (x ∷ xs) a = ground (arith, first_wanted-append wanted xs a)

  pub first_wanted-wanted :
      (wanted : A → Bool) (xs : List A) {a : A} → first_wanted wanted xs ≡ some a → wanted a ≡ true
  unfolding first_wanted
  first_wanted-wanted wanted [] e = ground arith
  first_wanted-wanted wanted (x ∷ xs) e = elim (Bool-cases (wanted x)) [
    | inl hit ↦ ground arith
    | inr miss ↦ first_wanted-wanted wanted xs (ground arith)
  ]
