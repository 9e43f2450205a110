-- ===== src/Registry/Driver.antt =====
-- The registries of audio players, video sources, video displays, media NAT traversal and media
-- encryption (jni/baresip/src/auplay.c, vidsrc.c, vidisp.c, mnat.c, menc.c), with what starts a
-- driver.
use bare_sip_android.Prelude.{
  ℕ, ◌≡◌, ◌<◌, ◌↔◌, ◌⊎◌, All, inl, inr, refl, ap, ◌∙◌, Bool-cases, Bool, true, false, not, ◌||◌,
  Option, none, some, List, [], ◌∷◌, ◌++◌, ◌==◌, if◌then◌else◌, Bytes, arith, einval, enomem,
  enoent, length,
}
use bare_sip_android.Registry.Search.{first_wanted, First, first_wanted-First, first_wanted-split}

-- A driver with the error of its allocation handler, by the parameters; `id` in the last two
-- registries.
pub record Driver (P : Type 0) : Type 0 where
  pub name : Bytes
  pub alloch : P → ℕ

-- the rate and the channels of struct auplay_prm
pub record AuplayPrm : Type 0 where
  pub srate : ℕ
  pub ch : ℕ

module _ {P : Type 0} where
  -- `place` tells that there is one for the pointer, and for the last two that the id and the
  -- handlers are there
  abbrev append_driver : Bool → Bool → Driver P → List (Driver P) → List (Driver P) × ℕ
  append_driver place mem d l =
      if not place then (l, einval) else if not mem then (l, enomem) else (l ++ d ∷ [], 0)

  unfoldable pub auplay_register : Bool → Bool → Driver P → List (Driver P) → List (Driver P) × ℕ
  auplay_register place mem ap auplayl = append_driver place mem ap auplayl

  unfoldable pub vidsrc_register : Bool → Bool → Driver P → List (Driver P) → List (Driver P) × ℕ
  vidsrc_register place mem vs vidsrcl = append_driver place mem vs vidsrcl

  unfoldable pub vidisp_register : Bool → Bool → Driver P → List (Driver P) → List (Driver P) × ℕ
  vidisp_register place mem vd vidispl = append_driver place mem vd vidispl

  unfoldable pub mnat_register : Bool → Bool → Driver P → List (Driver P) → List (Driver P) × ℕ
  mnat_register place mem mnat mnatl = append_driver place mem mnat mnatl

  unfoldable pub menc_register : Bool → Bool → Driver P → List (Driver P) → List (Driver P) × ℕ
  menc_register place mem menc mencl = append_driver place mem menc mencl

module _ {P : Type 0} (casecmp : Bytes → Bytes → ℕ) where
  -- no name, an empty one or the driver's
  unfoldable pub driver_wanted : Option Bytes → Driver P → Bool
  driver_wanted none d = true
  driver_wanted (some name) d = length name == 0 || casecmp name d.name == 0

  -- no name or the driver's
  unfoldable pub display_wanted : Option Bytes → Driver P → Bool
  display_wanted none d = true
  display_wanted (some name) d = casecmp name d.name == 0

  unfoldable pub auplay_find : Option Bytes → List (Driver P) → Option (Driver P)
  unfolding first_wanted driver_wanted
  auplay_find name auplayl = first_wanted (driver_wanted name) auplayl

  unfoldable pub vidsrc_find : Option Bytes → List (Driver P) → Option (Driver P)
  unfolding first_wanted driver_wanted
  vidsrc_find name vidsrcl = first_wanted (driver_wanted name) vidsrcl

  unfoldable pub vidisp_find : Option Bytes → List (Driver P) → Option (Driver P)
  unfolding first_wanted display_wanted
  vidisp_find name vidispl = first_wanted (display_wanted name) vidispl

  unfoldable pub mnat_find : Bytes → List (Driver P) → Option (Driver P)
  unfolding first_wanted
  mnat_find id mnatl = first_wanted (λ d. casecmp d.name id == 0) mnatl

  unfoldable pub menc_find : Bytes → List (Driver P) → Option (Driver P)
  unfolding first_wanted
  menc_find id mencl = first_wanted (λ d. casecmp id d.name == 0) mencl

  abbrev pub start_found : P → Option (Driver P) → ℕ
  start_found prm none = enoent
  start_found prm (some d) = d.alloch prm

  unfoldable pub vidsrc_alloc : Option Bytes → P → List (Driver P) → ℕ
  unfolding vidsrc_find
  vidsrc_alloc name prm vidsrcl = start_found prm (vidsrc_find name vidsrcl)

  unfoldable pub vidisp_alloc : Option Bytes → P → List (Driver P) → ℕ
  unfolding vidisp_find
  vidisp_alloc name prm vidispl = start_found prm (vidisp_find name vidispl)

abbrev pub play_found : AuplayPrm → Option (Driver AuplayPrm) → ℕ
play_found prm none = enoent
play_found prm (some d) = if prm.srate == 0 || prm.ch == 0 then einval else d.alloch prm

unfoldable pub auplay_alloc :
    (Bytes → Bytes → ℕ) → Option Bytes → AuplayPrm → List (Driver AuplayPrm) → ℕ
unfolding auplay_find
auplay_alloc casecmp name prm auplayl = play_found prm (auplay_find casecmp name auplayl)

-- No name is wanted, or an empty one, or the driver's.
abbrev pub Wants : (Bytes → Bytes → ℕ) → Option Bytes → Driver AuplayPrm → Type 0
Wants casecmp none d = Unit
Wants casecmp (some name) d = (length name ≡ 0) ⊎ (casecmp name d.name ≡ 0)

-- The first registered driver that is wanted has no error, for a rate and channels.
abbrev pub Plays : (Bytes → Bytes → ℕ) → Option Bytes → AuplayPrm → List (Driver AuplayPrm) → Type 0
Plays casecmp name prm auplayl =
    (d : Driver AuplayPrm) × ((pre : List (Driver AuplayPrm)) × ((post : List (Driver AuplayPrm))
        × ((auplayl ≡ pre ++ d ∷ post)
            × (Wants casecmp name d
                × (All (λ x. ¬ Wants casecmp name x) pre
                    × ((0 < prm.srate) × ((0 < prm.ch) × (d.alloch prm ≡ 0))))))))

module _ (casecmp : Bytes → Bytes → ℕ) where
  wanted-Wants :
      (name : Option Bytes) (d : Driver AuplayPrm)
      → (driver_wanted casecmp name d ≡ true) ↔ Wants casecmp name d
  unfolding driver_wanted
  wanted-Wants none d = (λ e. tt, λ w. refl)
  wanted-Wants (some name) d = (λ e. named e, by_name)
    where
      named : driver_wanted casecmp (some name) d ≡ true → Wants casecmp (some name) d
      named e = elim (Bool-cases (length name == 0)) [
        | inl z ↦ inl (ground (arith, z))
        | inr z ↦ inr (ground (arith, e, z))
      ]

      by_name : Wants casecmp (some name) d → driver_wanted casecmp (some name) d ≡ true
      by_name (inl z) = ground (arith, z)
      by_name (inr z) = ground (arith, z)

  unwanted-Wants :
      (name : Option Bytes) (d : Driver AuplayPrm)
      → (driver_wanted casecmp name d ≡ false) ↔ (¬ Wants casecmp name d)
  unwanted-Wants name d =
      let (wants, back) = wanted-Wants name d in
      (
        λ e w. ground (arith, e, back w),
        λ n. elim (Bool-cases (driver_wanted casecmp name d)) [
          | inl t ↦ elim (n (wants t)) [ ]
          | inr f ↦ f
        ],
      )

  All-Wants :
      (name : Option Bytes) (l : List (Driver AuplayPrm))
      → All (λ x. driver_wanted casecmp name x ≡ false) l ↔ All (λ x. ¬ Wants casecmp name x) l
  All-Wants name [] = (λ a. tt, λ a. tt)
  All-Wants name (d ∷ l) =
      let (one, one_back) = unwanted-Wants name d in
      let (more, more_back) = All-Wants name l in
      (λ (u, a). (one u, more a), λ (u, a). (one_back u, more_back a))

  found-Plays :
      (name : Option Bytes) (prm : AuplayPrm) (l : List (Driver AuplayPrm))
      (o : Option (Driver AuplayPrm))
      → First (driver_wanted casecmp name) l o
      → play_found prm o ≡ 0
      → Plays casecmp name prm l
  found-Plays name prm l none f e = ground (arith, e)
  found-Plays name prm l (some d) (pre, post, split, hit, f) e =
      let (wants, back) = wanted-Wants name d in
      let (unwanted, unwanted_back) = All-Wants name pre in
      (
        d,
        (
          pre,
          (
            post,
            (
              split,
              (
                wants hit,
                (unwanted f, (ground (arith, e), (ground (arith, e), ground (arith, e)))),
              ),
            ),
          ),
        ),
      )

  Plays-found :
      (name : Option Bytes) (prm : AuplayPrm) (l : List (Driver AuplayPrm))
      → Plays casecmp name prm l
      → play_found prm (first_wanted (driver_wanted casecmp name) l) ≡ 0
  Plays-found name prm l (d, (pre, (post, (split, (w, (f, (srate, (ch, ok)))))))) =
      let (wants, back) = wanted-Wants name d in
      let (unwanted, unwanted_back) = All-Wants name pre in
      ap (λ x. play_found prm (first_wanted (driver_wanted casecmp name) x)) split
      ∙ ap (play_found prm)
          (first_wanted-split (driver_wanted casecmp name) pre post d (back w) (unwanted_back f))
      ∙ ground (arith, srate, ch, ok)

-- An audio player is started with success if and only if there are a rate and channels, and the
-- first registered driver that has the wanted name, or the first of all where no name or an empty
-- one is wanted, has no error.
pub auplay_alloc-First :
    (casecmp : Bytes → Bytes → ℕ) (name : Option Bytes) (prm : AuplayPrm)
    (auplayl : List (Driver AuplayPrm))
    → (auplay_alloc casecmp name prm auplayl ≡ 0) ↔ Plays casecmp name prm auplayl
unfolding auplay_alloc auplay_find
auplay_alloc-First casecmp name prm auplayl = (
  found-Plays casecmp name prm auplayl _ (first_wanted-First (driver_wanted casecmp name) auplayl),
  Plays-found casecmp name prm auplayl,
)
