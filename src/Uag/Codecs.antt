-- ===== src/Uag/Codecs.antt =====
-- The lists of codecs that are preferred by the parameters of an address (jni/baresip/src/ua.c,
-- csl_parse, audio_codecs_decode, video_codecs_decode). The regular expressions and the reading of
-- numbers are the library's: a match is a parameter.
use bare_sip_android.Prelude.{
  ℕ, zero, suc, ◌+◌, ◌%◌, ◌^◌, length-drop, sym, ◌≤◌, ◌≡◌, ◌∙◌, refl, ap, Bool, true, false, Option,
  none, some, List, [], ◌∷◌, ◌++◌, length, take, drop, ◌==◌, if◌then◌else◌, Bytes, arith, enomem,
  Option-cases, inl, inr,
}
use bare_sip_android.Registry.Aucodec.{Aucodec, aucodec_clone, aucodec_find}
use bare_sip_android.Registry.Device.{Vidcodec, vidcodec_find}

-- the match of a name of a list: the lengths of the space before it, behind it and of the commas
-- there, and the name
pub record CslMatch : Type 0 where
  pub ws : ℕ
  pub val : Bytes
  pub ws2 : ℕ
  pub cma : ℕ

-- the match of "codec/srate/ch", and the numbers
pub record CodecMatch : Type 0 where
  pub name : Bytes
  pub srate : ℕ
  pub ch : Option ℕ

-- `mem` tells whether there is memory for the copy of a codec, `addr` gives the copy's address.
pub record CodecsEnv : Type 0 where
  pub csl : Bytes → Option CslMatch
  pub codec : Bytes → Option CodecMatch
  pub casecmp : Bytes → Bytes → ℕ
  pub mem : Bool
  pub addr : ℕ
  pub aucodecl : List Aucodec
  pub vidcodecl : List Vidcodec

-- pl_strcpy into 64 bytes
abbrev pub cname_of : Bytes → Bytes
cname_of val = take 63 val

abbrev pub matched : CslMatch → ℕ
matched m = m.ws + length m.val + m.ws2 + m.cma

abbrev pub at_match : Bytes → Option CslMatch → Option (Bytes × Bytes)
at_match pl none = none
at_match pl (some m) = some (cname_of m.val, drop (matched m) pl)

-- the name, and what is left of the list
unfoldable pub csl_parse : (Bytes → Option CslMatch) → Bytes → Option (Bytes × Bytes)
csl_parse csl pl = at_match pl (csl pl)

-- the name of a codec, its sampling rate and its channels, a `uint8_t`
abbrev pub codec_of : Bytes → Option CodecMatch → Bytes × (ℕ × ℕ)
codec_of cname none = (cname, (8000, 1))
codec_of cname (some m) =
    (cname_of m.name, (m.srate, elim m.ch [ none ↦ 1 | some ch ↦ ch % 2 ^ 8 ]))

unfoldable pub vidcodec_clone : Bool → ℕ → List Vidcodec → Vidcodec → List Vidcodec × ℕ
vidcodec_clone mem addr l vc = if mem then (l ++ record vc { addr = addr } ∷ [], 0) else (l, enomem)

-- the list behind a pointer that is not NULL
abbrev pub list_at : {A : Type 0} → List A → Option (List A) → List A
list_at l none = l
list_at l (some l') = l'

abbrev pub clone_audio : Bool → ℕ → List Aucodec → Aucodec → List Aucodec × ℕ
clone_audio mem addr l ac =
    let (l', err) = aucodec_clone mem addr (some l) (some ac) in (list_at l l', err)

module _ {A : Type 0} where
  -- what a turn of the loop does, with the turns behind it
  abbrev pub csl_turn :
      (Bytes → List A → List A × ℕ)
      → (Bytes → List A → Option (List A × ℕ))
      → List A
      → Option (Bytes × Bytes)
      → Option (List A × ℕ)
  csl_turn add more l none = some (l, 0)
  csl_turn add more l (some (cname, rest)) =
      let (l', err) = add cname l in if err == 0 then more rest l' else some (l', err)

  -- `while (0 == csl_parse(...))`, where `add` handles a name; `none` is a lack of fuel
  unfoldable pub csl_loop :
      (Bytes → Option CslMatch)
      → (Bytes → List A → List A × ℕ)
      → ℕ
      → Bytes
      → List A
      → Option (List A × ℕ)
  unfolding csl_parse
  csl_loop csl add zero pl l = none
  csl_loop csl add (suc fuel) pl l = csl_turn add (csl_loop csl add fuel) l (csl_parse csl pl)

-- the parameter audio_codecs, and whether there is one; the fuel is the length and one
abbrev pub decode_codecs :
    {A : Type 0}
    → (Bytes → Option CslMatch)
    → (Bytes → List A → List A × ℕ)
    → Option Bytes
    → Option (List A × ℕ)
decode_codecs csl add none = some ([], 0)
decode_codecs csl add (some pl) = csl_loop csl add (suc (length pl)) pl []

-- the flag that the parameter is there, the list and the error
abbrev pub decoded : {A : Type 0} → Bool → Option (List A × ℕ) → Option (Bool × (List A × ℕ))
decoded exists none = none
decoded exists (some r) = some (if exists then (true, r) else (false, ([], 0)))

module _ (env : CodecsEnv) where
  unfoldable pub find_audio : Bytes → Option Aucodec
  unfolding aucodec_find
  find_audio cname =
      let (name, (srate, ch)) = codec_of cname (env.codec cname) in
      aucodec_find env.casecmp (some name) srate ch env.aucodecl

  unfoldable pub find_video : Bytes → Option Vidcodec
  unfolding vidcodec_find
  find_video cname = vidcodec_find env.casecmp (some cname) env.vidcodecl

  -- a codec that is not found is left out
  abbrev pub add_audio : Bytes → List Aucodec → List Aucodec × ℕ
  add_audio cname l = elim (find_audio cname) [
    | none ↦ (l, 0)
    | some ac ↦ clone_audio env.mem env.addr l ac
  ]

  abbrev pub add_video : Bytes → List Vidcodec → List Vidcodec × ℕ
  add_video cname l = elim (find_video cname) [
    | none ↦ (l, 0)
    | some vc ↦ vidcodec_clone env.mem env.addr l vc
  ]

  unfoldable pub audio_codecs_decode : Bool → Option Bytes → Option (Bool × (List Aucodec × ℕ))
  unfolding csl_loop find_audio aucodec_clone
  audio_codecs_decode exists pl = decoded exists (decode_codecs env.csl add_audio pl)

  unfoldable pub video_codecs_decode : Bool → Option Bytes → Option (Bool × (List Vidcodec × ℕ))
  unfolding csl_loop find_video vidcodec_clone
  video_codecs_decode exists pl = decoded exists (decode_codecs env.csl add_video pl)

-- A match takes at least a character, and all are of the list.
abbrev pub TakesSome : (Bytes → Option CslMatch) → Type 0
TakesSome csl = (pl : Bytes) (m : CslMatch) → csl pl ≡ some m → (1 ≤ matched m) × (1 ≤ length pl)

-- the names of a list, one match behind the other
pub data Listed (csl : Bytes → Option CslMatch) : Bytes → List Bytes → Type 0 where
  at_end : {pl : Bytes} → csl_parse csl pl ≡ none → Listed csl pl []
  then_name :
      {pl cname rest : Bytes} {names : List Bytes}
      → csl_parse csl pl ≡ some (cname, rest)
      → Listed csl rest names
      → Listed csl pl (cname ∷ names)

-- the names handled in turn, up to an error
abbrev pub add_all : {A : Type 0} → (Bytes → List A → List A × ℕ) → List Bytes → List A → List A × ℕ
add_all add [] l = (l, 0)
add_all add (n ∷ ns) l =
    let (l', err) = add n l in if err == 0 then add_all add ns l' else (l', err)

or_nil : Option (Bytes × Bytes) → Bytes
or_nil none = []
or_nil (some (cname, rest)) = rest

shorter_rest :
    (pl cname rest : Bytes) (m : CslMatch)
    → (1 ≤ matched m) × (1 ≤ length pl)
    → at_match pl (some m) ≡ some (cname, rest)
    → suc (length rest) ≤ length pl
unfolding or_nil
shorter_rest pl cname rest m (t, u) e =
    let d = ap (λ o. length (or_nil o)) e in omega (arith, length-drop (matched m) pl, t, u, d)

if_some :
    {A : Type 0} (b : Bool) (x y : A) → (if b then some x else some y) ≡ some (if b then x else y)
if_some true x y = refl
if_some false x y = refl

shorter_at :
    (csl : Bytes → Option CslMatch) (pl cname rest : Bytes) (o : Option CslMatch)
    → TakesSome csl
    → csl pl ≡ o
    → csl_parse csl pl ≡ some (cname, rest)
    → suc (length rest) ≤ length pl
unfolding csl_parse
shorter_at csl pl cname rest none takes s e = ground (arith, s, e)
shorter_at csl pl cname rest (some m) takes s e =
    shorter_rest pl cname rest m (takes pl m s) (sym (ap (at_match pl) s) ∙ e)

module _ {A : Type 0} (csl : Bytes → Option CslMatch) (takes : TakesSome csl) where
  pub csl_loop-Listed :
      (add : Bytes → List A → List A × ℕ) (fuel : ℕ) (pl : Bytes) (l : List A)
      → suc (length pl) ≤ fuel
      → (names : List Bytes) × (Listed csl pl names
          × (csl_loop csl add fuel pl l ≡ some (add_all add names l)))
  unfolding csl_loop
  csl_loop-Listed add zero pl l h = ground (arith, h)
  csl_loop-Listed add (suc fuel) pl l h = elim (Option-cases (csl_parse csl pl)) [
    | inl n ↦ ([], (at_end n, ap (csl_turn add (csl_loop csl add fuel) l) n))
    | inr ((cname, rest), e) ↦
        let (names, (ls, r)) =
          csl_loop-Listed add fuel rest (add cname l).0
            (omega (arith, h, shorter_at csl pl cname rest (csl pl) takes refl e)) in
        (
          cname ∷ names,
          (
            then_name e ls,
            ap (csl_turn add (csl_loop csl add fuel) l) e
                ∙ ap (λ o. if (add cname l).1 == 0 then o else some (add cname l)) r
                ∙ if_some ((add cname l).1 == 0) _ _,
          ),
        )
  ]

module _ (env : CodecsEnv) (takes : TakesSome env.csl) where
  decode_ends :
      {A : Type 0} (add : Bytes → List A → List A × ℕ) (pl : Option Bytes)
      → (r : List A × ℕ) × (decode_codecs env.csl add pl ≡ some r)
  decode_ends add none = (([], 0), refl)
  decode_ends add (some pl) =
      let (names, (ls, e)) =
        csl_loop-Listed env.csl takes add (suc (length pl)) pl [] (omega arith) in
      (add_all add names [], e)

  pub audio_codecs_decode_ends :
      (exists : Bool) (pl : Option Bytes)
      → (r : Bool × (List Aucodec × ℕ)) × (audio_codecs_decode env exists pl ≡ some r)
  unfolding audio_codecs_decode
  audio_codecs_decode_ends exists pl =
      let (r, e) = decode_ends (add_audio env) pl in
      (if exists then (true, r) else (false, ([], 0)), ap (decoded exists) e)

  pub video_codecs_decode_ends :
      (exists : Bool) (pl : Option Bytes)
      → (r : Bool × (List Vidcodec × ℕ)) × (video_codecs_decode env exists pl ≡ some r)
  unfolding video_codecs_decode
  video_codecs_decode_ends exists pl =
      let (r, e) = decode_ends (add_video env) pl in
      (if exists then (true, r) else (false, ([], 0)), ap (decoded exists) e)
