-- ===== src/Audio/Decode.antt =====
-- How received audio is decoded (jni/baresip/src/audio.c, audio_stream_decode). The decoder, the
-- filters and the audio buffer are the libraries'.
use bare_sip_android.Prelude.{
  ℕ, zero, suc, ◌+◌, ◌*◌, ◌-◌, ◌≡◌, sym, ap, ◌∙◌, Bool, true, not, ◌&&◌, Option, none, some, List,
  [], ◌∷◌, ◌++◌, length, drop, length-drop, ◌==◌, if◌then◌else◌, Bytes, arith, Bool-cases, inl, inr,
}
use bare_sip_android.Audio.State.{Codec}

-- The payload type of `none` is -1; `ab` tells that there is an audio buffer, `fc` that there are
-- filters.
pub record Aurx (D : Type 0) : Type 0 where
  pub dec : Option (Codec × D)
  pub pt : Option ℕ
  pub pt_tel : ℕ
  pub ab : Bool
  pub auplay : Bool
  pub fc : Bool

-- A call of the decoder on what is left of a packet, or on no packet: its error, the samples, and
-- what is left then.
pub record Decoded : Type 0 where
  pub err : ℕ
  pub pcm : Bytes
  pub rest : Option Bytes

pub record DecodeEnv (D : Type 0) : Type 0 where
  pub dech : Option Bytes → D → Decoded × D
  pub filter_dec : Bytes → ℕ × Bytes
  pub aubuf_write : Bytes → ℕ

-- mbuf_get_left
abbrev pub left_of : Option Bytes → ℕ
left_of none = 0
left_of (some mb) = length mb

module _ {D : Type 0} (env : DecodeEnv D) where
  -- `do { ... } while (n-- && mbuf_get_left(mb) && !err)`
  unfoldable pub decode_loop : ℕ → Option Bytes → Bytes → D → Decoded × D
  decode_loop zero mb pcm d = let (r, d') = env.dech mb d in (record r { pcm = pcm ++ r.pcm }, d')
  decode_loop (suc n) mb pcm d =
      let (r, d') = env.dech mb d in
      let more = decode_loop n r.rest (pcm ++ r.pcm) d' in
      if not (left_of r.rest == 0) && r.err == 0
      then more
      else (record r { pcm = pcm ++ r.pcm }, d')

  -- the samples of a packet behind the decoder
  abbrev play_samples : Aurx D → Bytes → ℕ × List Bytes
  play_samples rx pcm =
      let (ferr, out) = if rx.fc then env.filter_dec pcm else (0, pcm) in
      if rx.ab then (env.aubuf_write out, out ∷ []) else (ferr, [])

  abbrev decode_at : Option Bytes → Aurx D → Option (Codec × D) → (ℕ × List Bytes) × Aurx D
  decode_at mb rx none = ((0, []), rx)
  decode_at mb rx (some (ac, d)) =
      let (r, d') = decode_loop 64 mb [] d in
      let rx' = record rx { dec = some (ac, d') } in
      if r.err == 0 then (play_samples rx r.pcm, rx') else ((r.err, []), rx')

  -- the error, what was written to the audio buffer, and the state
  unfoldable pub audio_stream_decode : Option Bytes → Aurx D → (ℕ × List Bytes) × Aurx D
  unfolding decode_loop
  audio_stream_decode mb rx = decode_at mb rx rx.dec

  -- A decoder that takes frames of `k` bytes: a call has no error and leaves the bytes behind the
  -- first frame.
  abbrev pub Framed : ℕ → Type 0
  Framed k =
      (mb : Bytes) (d : D)
      → ((env.dech (some mb) d).0.err ≡ 0) × ((env.dech (some mb) d).0.rest ≡ some (drop k mb))

  zero_left : (mb : Bytes) → (length mb == 0) ≡ true → length mb ≡ 0
  zero_left mb z = ground (arith, z)

  more_rounds : (k n m : ℕ) → m - k - k * (n + 1) ≡ m - k * (n + 2)
  more_rounds k n m = grind arith

  ends_now : (k n m : ℕ) → m - k ≡ 0 → 0 ≡ m - k * (n + 2)
  ends_now k n m h = grind (arith, h)

  stop_or_more :
      (k n : ℕ) (mb pcm : Bytes) (d : D)
      → (env.dech (some mb) d).0.err ≡ 0
      → (env.dech (some mb) d).0.rest ≡ some (drop k mb)
      → ((pcm : Bytes) (d : D)
          → left_of (decode_loop n (some (drop k mb)) pcm d).0.rest
            ≡ length (drop k mb) - k * (n + 1))
      → left_of (decode_loop (suc n) (some mb) pcm d).0.rest ≡ length mb - k * (n + 2)
  unfolding decode_loop
  stop_or_more k n mb pcm d e r ih = elim (Bool-cases (length (drop k mb) == 0)) [
    | inl z ↦
        rw (r, e, z)
          (zero_left (drop k mb) z
            ∙ ends_now k n (length mb) (sym (length-drop k mb) ∙ zero_left (drop k mb) z))
    | inr z ↦
        rw (r, e, z)
          (ih _ _ ∙ ap (λ l. l - k * (n + 1)) (length-drop k mb) ∙ more_rounds k n (length mb))
  ]

  loop_left :
      (k n : ℕ) (mb pcm : Bytes) (d : D)
      → Framed k
      → left_of (decode_loop n (some mb) pcm d).0.rest ≡ length mb - k * (n + 1)
  unfolding decode_loop
  loop_left k zero mb pcm d f =
      let (e, r) = f mb d in ap left_of r ∙ length-drop k mb ∙ ap (λ j. length mb - j) (omega arith)
  loop_left k (suc n) mb pcm d f =
      let (e, r) = f mb d in
      stop_or_more k n mb pcm d e r (λ pcm d. loop_left k n (drop k mb) pcm d f)
      ∙ ap (λ j. length mb - k * j) (omega arith)

  -- For a decoder that takes frames of `k` bytes without an error, the loop over a packet takes 65
  -- frames of it, or all that it has: it leaves nothing exactly where the packet has at most 65
  -- frames.
  pub decode_loop-left :
      (k : ℕ) (mb pcm : Bytes) (d : D)
      → Framed k
      → left_of (decode_loop 64 (some mb) pcm d).0.rest ≡ length mb - k * 65
  decode_loop-left k mb pcm d f = loop_left k 64 mb pcm d f
