-- ===== src/Registry/Aucodec.antt =====
-- Audio codecs (jni/baresip/src/aucodec.c). A codec is told apart by its address, `addr`; of its
-- handlers the model has whether they are set, and the result of a call of one is a parameter, as
-- is the comparison of strings without regard to case.
use bare_sip_android.Prelude.{
  ℕ, ◌≡◌, ◌≢◌, Bool, true, false, not, ◌&&◌, ◌||◌, Option, none, some, List, [], ◌∷◌, ◌++◌, ◌==◌,
  if◌then◌else◌, Bytes, or_else, arith, einval, enomem, enoent,
}
use bare_sip_android.Registry.Search.{
  first_wanted, First, first_wanted-First, first_wanted-append, first_wanted-wanted,
}

pub record Aucodec : Type 0 where
  pub addr : ℕ
  pub pt : Option Bytes
  pub name : Bytes
  pub srate : ℕ
  pub ch : ℕ
  pub fmtp : Option Bytes
  pub has_ench : Bool
  pub has_dech : Bool

-- What the caller gives: a place for the result, and memory for the codec.
unfoldable pub aucodec_register : Bool → Bool → Aucodec → List Aucodec → List Aucodec × ℕ
aucodec_register ap alloc ac aucodecl =
    if not ap
    then (aucodecl, einval)
    else if not alloc
    then (aucodecl, enomem)
    else (aucodecl ++ ac ∷ [], 0)

-- the copy gets the address `addr`; `none` is NULL
unfoldable pub aucodec_clone :
    Bool → ℕ → Option (List Aucodec) → Option Aucodec → Option (List Aucodec) × ℕ
aucodec_clone alloc addr none src = (none, einval)
aucodec_clone alloc addr (some l) none = (some l, einval)
aucodec_clone alloc addr (some l) (some src) =
    if not alloc then (some l, enomem) else (some (l ++ (record src { addr = addr }) ∷ []), 0)

-- The state of a codec, or NULL if it or its codec is; the result is that of the handler.
unfoldable pub aucodec_encode : (Aucodec → ℕ) → Option Aucodec → ℕ
aucodec_encode ench none = einval
aucodec_encode ench (some ac) = if ac.has_ench then ench ac else 0

unfoldable pub aucodec_decode : (Aucodec → ℕ) → Option Aucodec → ℕ
aucodec_decode dech none = einval
aucodec_decode dech (some ac) = if ac.has_dech then dech ac else 0

module _ (casecmp : Bytes → Bytes → ℕ) where
  abbrev pub name_wanted : Option Bytes → Bytes → Bool
  name_wanted none name = true
  name_wanted (some n) name = casecmp n name == 0

  -- no `continue` is reached; NULL and 0 match any name, rate and number of channels
  unfoldable pub aucodec_wanted : Option Bytes → ℕ → ℕ → Aucodec → Bool
  aucodec_wanted name srate ch ac =
      name_wanted name ac.name && (srate == 0 || srate == ac.srate) && (ch == 0 || ch == ac.ch)

  unfoldable pub aucodec_find : Option Bytes → ℕ → ℕ → List Aucodec → Option Aucodec
  unfolding first_wanted aucodec_wanted
  aucodec_find name srate ch aucodecl = first_wanted (aucodec_wanted name srate ch) aucodecl

  abbrev alloc_found : (Aucodec → ℕ) → Option Aucodec → ℕ
  alloc_found alloch none = enoent
  alloc_found alloch (some ac) = alloch ac

  unfoldable pub aucodec_alloc : (Aucodec → ℕ) → Option Bytes → ℕ → ℕ → List Aucodec → ℕ
  unfolding aucodec_find
  aucodec_alloc alloch name srate ch aucodecl =
      alloc_found alloch (aucodec_find name srate ch aucodecl)

  unfoldable pub aucodec_cmp : Option Aucodec → Option Aucodec → Bool
  aucodec_cmp none r = false
  aucodec_cmp (some l) none = false
  aucodec_cmp (some l) (some r) =
      if l.addr == r.addr
      then true
      else if not (casecmp l.name r.name == 0)
      then false
      else if not (l.srate == r.srate)
      then false
      else l.ch == r.ch

  -- The search for an audio codec gives the first registered one with the wanted name, sampling
  -- rate and number of channels, as far as they are given, and nothing only if there is none.
  aucodec_find-First :
      (name : Option Bytes) (srate ch : ℕ) (aucodecl : List Aucodec)
      → First (aucodec_wanted name srate ch) aucodecl (aucodec_find name srate ch aucodecl)
  unfolding aucodec_find
  aucodec_find-First name srate ch aucodecl = first_wanted-First _ aucodecl

  -- A codec that was registered with success is found by what it matches, unless an earlier one
  -- does.
  aucodec_find-register :
      (ap alloc : Bool) (ac : Aucodec) (aucodecl : List Aucodec) (name : Option Bytes)
      (srate ch : ℕ) {new : List Aucodec}
      → aucodec_register ap alloc ac aucodecl ≡ (new, 0)
      → aucodec_find name srate ch new
        ≡ or_else
            (aucodec_find name srate ch aucodecl)
            (if aucodec_wanted name srate ch ac then some ac else none)
  unfolding aucodec_find aucodec_register
  aucodec_find-register ap alloc ac aucodecl name srate ch e =
      ground (arith, first_wanted-append (aucodec_wanted name srate ch) aucodecl ac)

  -- A codec that is found by the name, a sampling rate and a number of channels of another, both
  -- not zero, compares equal to it.
  pub aucodec_cmp-find :
      (l : Aucodec) (aucodecl : List Aucodec) {r : Aucodec}
      → l.srate ≢ 0
      → l.ch ≢ 0
      → aucodec_find (some l.name) l.srate l.ch aucodecl ≡ some r
      → aucodec_cmp (some l) (some r) ≡ true
  unfolding aucodec_find aucodec_wanted aucodec_cmp
  aucodec_cmp-find l aucodecl s c e =
      ground (arith, first_wanted-wanted (aucodec_wanted (some l.name) l.srate l.ch) aucodecl e)
