-- ===== src/Uag/Find.antt =====
-- The search for the user agent of a request (jni/baresip/src/ua.c, ua_find, ua_find_aor). The
-- comparison of names without regard to case is the library's.
use bare_sip_android.Prelude.{
  ℕ, ◌≡◌, refl, Bool, true, false, not, ◌&&◌, Option, none, some, List, [], ◌∷◌, All, length, ◌==◌,
  if◌then◌else◌, Bytes, Bool-cases, inl, inr, ◌⊎◌, or_else,
}
use mathlib.Core.List.{Memᴰ}
use bare_sip_android.Uag.State.{RegUa}

-- the first of which a test holds
unfoldable pub first_with : (RegUa → Bool) → List RegUa → Option RegUa
first_with test [] = none
first_with test (ua ∷ ual) = if test ua then some ua else first_with test ual

-- by the contact user, then by the user of the address of record
unfoldable pub ua_find : (Bytes → Bytes → ℕ) → Bytes → List RegUa → Option RegUa
unfolding first_with
ua_find casecmp cuser ual =
    or_else (first_with (λ ua. casecmp cuser ua.cuser == 0) ual)
      (first_with (λ ua. casecmp cuser ua.user == 0) ual)

-- An empty address of record finds the first; `strcmp` compares with the local URI.
unfoldable pub ua_find_aor : (Bytes → Bytes → ℕ) → Bytes → List RegUa → Option RegUa
ua_find_aor strcmp aor [] = none
ua_find_aor strcmp aor (ua ∷ ual) =
    if not (length aor == 0) && not (strcmp ua.local_uri aor == 0)
    then ua_find_aor strcmp aor ual
    else some ua

-- what a search for a test finds, or none
FirstWith : (RegUa → Bool) → List RegUa → Option RegUa → Type 0
FirstWith test ual none = All (λ u. test u ≡ false) ual
FirstWith test ual (some ua) = Memᴰ ua ual × (test ua ≡ true)

kept_first :
    (test : RegUa → Bool) (u : RegUa) (ual : List RegUa) (o : Option RegUa)
    → test u ≡ false
    → FirstWith test ual o
    → FirstWith test (u ∷ ual) o
unfolding FirstWith
kept_first test u ual none e f = (e, f)
kept_first test u ual (some ua) e (m, t) = (Memᴰ.tail m, t)

first_with_lem : (test : RegUa → Bool) (ual : List RegUa) → FirstWith test ual (first_with test ual)
unfolding first_with FirstWith
first_with_lem test [] = tt
first_with_lem test (ua ∷ ual) = elim (Bool-cases (test ua)) [
  | inl e ↦ rw e (Memᴰ.head refl, e)
  | inr e ↦ rw e (kept_first test ua ual (first_with test ual) e (first_with_lem test ual))
]

module _ (casecmp : Bytes → Bytes → ℕ) (cuser : Bytes) where
  abbrev pub called : RegUa → Bool
  called ua = casecmp cuser ua.cuser == 0

  abbrev pub addressed : RegUa → Bool
  addressed ua = casecmp cuser ua.user == 0

  abbrev pub Uncalled : List RegUa → Type 0
  Uncalled ual = All (λ u. called u ≡ false) ual

  abbrev pub Sought : List RegUa → Option RegUa → Type 0
  Sought ual none = Uncalled ual × All (λ u. addressed u ≡ false) ual
  Sought ual (some ua) = Memᴰ ua ual × ((called ua ≡ true) ⊎ ((addressed ua ≡ true) × Uncalled ual))

  by_address :
      (ual : List RegUa) (o : Option RegUa)
      → Uncalled ual
      → FirstWith addressed ual o
      → Sought ual o
  unfolding FirstWith
  by_address ual none n f = (n, f)
  by_address ual (some ua) n (m, e) = (m, inr (e, n))

  by_contact :
      (ual : List RegUa) (o : Option RegUa)
      → FirstWith called ual o
      → Sought ual (or_else o (first_with addressed ual))
  unfolding FirstWith
  by_contact ual none n = by_address ual (first_with addressed ual) n (first_with_lem addressed ual)
  by_contact ual (some ua) (m, e) = (m, inl e)

  -- The user agent that is found for a name is in the list, and has the name as its contact user,
  -- or as the user of its address where no user agent of the list has it as its contact user; and
  -- if none is found, no user agent of the list has the name in one of the two ways.
  pub ua_find_lem : (ual : List RegUa) → Sought ual (ua_find casecmp cuser ual)
  unfolding ua_find
  ua_find_lem ual = by_contact ual (first_with called ual) (first_with_lem called ual)
