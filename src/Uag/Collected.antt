-- ===== src/Uag/Collected.antt =====
-- Which codecs are preferred by a parameter of an address (jni/baresip/src/ua.c,
-- audio_codecs_decode).
use bare_sip_android.Prelude.{
  ℕ, ◌%◌, ◌^◌, ◌≡◌, ◌⊎◌, Bool, Option, none, some, List, [], ◌∷◌, ◌++◌, take, All, Bytes,
}
use bare_sip_android.Registry.Aucodec.{Aucodec, aucodec_wanted}
use bare_sip_android.Uag.Codecs.{CodecMatch, CodecsEnv, codec_of}

-- the channels that are given, 0 standing for any number, or one
abbrev pub FitsChannels : Option ℕ → ℕ → Type 0
FitsChannels none ch = ch ≡ 1
FitsChannels (some n) ch = (n % 2 ^ 8 ≡ 0) ⊎ (n % 2 ^ 8 ≡ ch)

-- by the match of the name as "codec/srate/ch", where 0 stands for any rate; one that does not match
-- is the name of a codec with 8000 Hz and one channel
abbrev pub FitsMatch : (Bytes → Bytes → ℕ) → Bytes → Option CodecMatch → Aucodec → Type 0
FitsMatch casecmp cname none ac = (casecmp cname ac.name ≡ 0) × ((ac.srate ≡ 8000) × (ac.ch ≡ 1))
FitsMatch casecmp cname (some m) ac =
    (casecmp (take 63 m.name) ac.name ≡ 0)
    × (((m.srate ≡ 0) ⊎ (m.srate ≡ ac.srate)) × FitsChannels m.ch ac.ch)

-- the codec is the one that a name of the list names
abbrev pub Fits : CodecsEnv → Bytes → Aucodec → Type 0
Fits env cname ac = FitsMatch env.casecmp cname (env.codec cname) ac

-- a codec is the first registered one that fits the name
abbrev pub FirstFit : CodecsEnv → Bytes → Aucodec → Type 0
FirstFit env cname ac =
    (pre : List Aucodec) × ((post : List Aucodec) × ((env.aucodecl ≡ pre ++ ac ∷ post)
        × (Fits env cname ac × All (λ x. ¬ Fits env cname x) pre)))

-- For each name in turn a copy of the first registered codec that fits it, and nothing for a name
-- that none fits.
abbrev pub Collected : CodecsEnv → List Bytes → List Aucodec → Type 0
Collected env [] l = l ≡ []
Collected env (n ∷ ns) l =
    (All (λ x. ¬ Fits env n x) env.aucodecl × Collected env ns l)
    ⊎ ((ac : Aucodec) × ((rest : List Aucodec) × (FirstFit env n ac
            × ((l ≡ record ac { addr = env.addr } ∷ rest) × Collected env ns rest))))

-- what the code looks for by the match
abbrev wanted_by : (Bytes → Bytes → ℕ) → Bytes → Option CodecMatch → Aucodec → Bool
wanted_by casecmp cname o ac =
    let (name, (srate, ch)) = codec_of cname o in aucodec_wanted casecmp (some name) srate ch ac

-- the channels that the code looks for
abbrev channels_of : Option ℕ → ℕ
channels_of o = elim o [ none ↦ 1 | some ch ↦ ch % 2 ^ 8 ]

module _ (env : CodecsEnv) where
  -- what the search finds
  FoundAudio : Bytes → Option Aucodec → Type 0
  FoundAudio cname none = All (λ x. ¬ Fits env cname x) env.aucodecl
  FoundAudio cname (some ac) = FirstFit env cname ac
