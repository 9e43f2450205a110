-- ===== src/Registry/Device.antt =====
-- Video codecs and audio sources (jni/baresip/src/vidcodec.c, jni/baresip/src/ausrc.c), with the
-- model of handlers and strings that audio codecs have.
use bare_sip_android.Prelude.{
  ℕ, ◌≡◌, Bool, true, false, not, ◌||◌, Option, none, some, List, [], ◌∷◌, ◌++◌, ◌==◌,
  if◌then◌else◌, Bytes, arith, einval, enomem, or_else, length,
}
use bare_sip_android.Registry.Search.{first_wanted, first_wanted-append, first_wanted-wanted}

pub record Vidcodec : Type 0 where
  pub addr : ℕ
  pub pt : Option Bytes
  pub name : Bytes
  pub fmtp : Option Bytes

pub record Ausrc : Type 0 where
  pub addr : ℕ
  pub name : Bytes

unfoldable pub vidcodec_register : Bool → Bool → Vidcodec → List Vidcodec → List Vidcodec × ℕ
vidcodec_register vp alloc vc vidcodecl =
    if not vp
    then (vidcodecl, einval)
    else if not alloc
    then (vidcodecl, enomem)
    else (vidcodecl ++ vc ∷ [], 0)

unfoldable pub ausrc_register : Bool → Bool → Ausrc → List Ausrc → List Ausrc × ℕ
ausrc_register asp alloc src ausrcl =
    if not asp
    then (ausrcl, einval)
    else if not alloc
    then (ausrcl, enomem)
    else (ausrcl ++ src ∷ [], 0)

module _ (casecmp : Bytes → Bytes → ℕ) where
  unfoldable pub vidcodec_wanted : Option Bytes → Vidcodec → Bool
  vidcodec_wanted none vc = true
  vidcodec_wanted (some name) vc = casecmp name vc.name == 0

  unfoldable pub vidcodec_find : Option Bytes → List Vidcodec → Option Vidcodec
  unfolding first_wanted vidcodec_wanted
  vidcodec_find name vidcodecl = first_wanted (vidcodec_wanted name) vidcodecl

  -- str_isset: a name is given, and it is not empty
  unfoldable pub ausrc_wanted : Option Bytes → Ausrc → Bool
  ausrc_wanted none src = true
  ausrc_wanted (some name) src = length name == 0 || casecmp name src.name == 0

  unfoldable pub ausrc_find : Option Bytes → List Ausrc → Option Ausrc
  unfolding first_wanted ausrc_wanted
  ausrc_find name ausrcl = first_wanted (ausrc_wanted name) ausrcl

  unfoldable pub vidcodec_cmp : Option Vidcodec → Option Vidcodec → Bool
  vidcodec_cmp none r = false
  vidcodec_cmp (some l) none = false
  vidcodec_cmp (some l) (some r) =
      if l.addr == r.addr then true else if not (casecmp l.name r.name == 0) then false else true

  -- A video codec that is found by the name of another compares equal to it.
  pub vidcodec_cmp-find :
      (l : Vidcodec) (vidcodecl : List Vidcodec) {r : Vidcodec}
      → vidcodec_find (some l.name) vidcodecl ≡ some r
      → vidcodec_cmp (some l) (some r) ≡ true
  unfolding vidcodec_find vidcodec_wanted vidcodec_cmp
  vidcodec_cmp-find l vidcodecl e =
      ground (arith, first_wanted-wanted (vidcodec_wanted (some l.name)) vidcodecl e)

  -- An audio source that was registered with success is found by its name, where no name, an empty
  -- one or an equal one is looked for, unless an earlier source is found.
  ausrc_find-register :
      (asp alloc : Bool) (src : Ausrc) (ausrcl : List Ausrc) (name : Option Bytes)
      {new : List Ausrc}
      → ausrc_register asp alloc src ausrcl ≡ (new, 0)
      → ausrc_find name new
        ≡ or_else (ausrc_find name ausrcl) (if ausrc_wanted name src then some src else none)
  unfolding ausrc_find ausrc_register
  ausrc_find-register asp alloc src ausrcl name e =
      ground (arith, first_wanted-append (ausrc_wanted name) ausrcl src)
