-- ===== src/Audio/Stamps.antt =====
-- The marker bits and time stamps of the audio that is sent (jni/baresip/src/audio.c).
use bare_sip_android.Prelude.{
  ℕ, suc, ◌+◌, ◌/◌, ◌%◌, ◌^◌, ◌<◌, ◌≡◌, ◌≢◌, refl, sym, ap, ap₂, ◌∙◌, Bool, true, false, Option,
  none, some, List, [], ◌∷◌, ◌++◌, length, ◌==◌, Bytes, arith, append_assoc,
}
use bare_sip_android.Stream.State.{Stream, sdp_sendrecv, add_word}
use bare_sip_android.Stream.Send.{SendEffect, rtp_send, rtpkeep_refresh, SendEnv, stream_send}
use bare_sip_android.Audio.State.{Audio, AudioEnv}
use bare_sip_android.Audio.Transmit.{
  samples, send_encoded, encode_with, encode_at, encode_rtp_send, process_audio_encode, encode_all,
}

-- marker bit, payload type and time stamp of each RTP packet
abbrev pub stamp : SendEffect → List (Bool × (ℕ × ℕ))
stamp (rtp_send marker pt ts mb) = (marker, (pt, ts)) ∷ []
stamp _ = []

abbrev pub stamps : List SendEffect → List (Bool × (ℕ × ℕ))
stamps [] = []
stamps (e ∷ es) = stamp e ++ stamps es

stamps-append : (xs ys : List SendEffect) → stamps (xs ++ ys) ≡ stamps xs ++ stamps ys
stamps-append [] ys = refl
stamps-append (x ∷ xs) ys =
    ap (λ l. stamp x ++ l) (stamps-append xs ys)
    ∙ sym (append_assoc (stamp x) (stamps xs) (stamps ys))

-- `total` samples were sent before, without a bound
unfoldable pub expected : (Bytes → ℕ) → Bool → ℕ → ℕ → List Bytes → List (Bool × (ℕ × ℕ))
expected count marker pt total [] = []
expected count marker pt total (mb ∷ mbs) =
    (marker, (pt, total % 2 ^ 32)) ∷ expected count false pt (total + count mb) mbs

-- The encoder has no error and gives at least a byte, and the stream can send.
pub record CanSend {E B T : Type 0} (pt : ℕ) (env : AudioEnv E B T) : Type 0 where
  pub no_error : (mb : Bytes) (e : E) → (env.ench mb e).0.0 ≡ 0
  pub some_bytes : (mb : Bytes) (e : E) → (length (env.ench mb e).0.1 == 0) ≡ false
  pub has_address : env.net.raddr_set ≡ true
  pub both_ways : env.net.dir sdp_sendrecv ≡ sdp_sendrecv
  pub is_sent : env.net.send_err ≡ 0

-- an audio stream with an encoder, that was agreed to be sent with a payload type
pub record Sending {J E B T : Type 0} (pt : ℕ) (a : Audio J E B T) : Type 0 where
  pub has_encoder : a.tx.enc ≢ none
  pub direction : a.strm.ldir ≡ sdp_sendrecv
  pub payload : a.strm.pt_enc ≡ some pt

stream_sends :
    {J : Type 0} (net : SendEnv) (m : Bool) (pt ts : ℕ) (out : Bytes) (s : Stream J)
    → net.raddr_set ≡ true
    → net.dir s.ldir ≡ sdp_sendrecv
    → s.pt_enc ≡ some pt
    → (stream_send net m none ts out s).0
      ≡ (net.send_err, rtp_send m pt ts out ∷ rtpkeep_refresh ts ∷ [])
unfolding stream_send
stream_sends net m pt ts out s addr both fits = rw (addr, both, fits) refl

stream_keeps :
    {J : Type 0} (net : SendEnv) (m : Bool) (pt : Option ℕ) (ts : ℕ) (out : Bytes) (s : Stream J)
    → ((stream_send net m pt ts out s).1.ldir ≡ s.ldir)
      × ((stream_send net m pt ts out s).1.pt_enc ≡ s.pt_enc)
unfolding stream_send
stream_keeps net m pt ts out s = ground arith

-- whole pairs of bytes, each of which is a sample
unfoldable pub pairs : Bytes → ℕ
pairs (a ∷ b ∷ bs) = suc (pairs bs)
pairs _ = 0

-- The samples of a frame, as the filters make it, that the clock of the time stamps counts: every
-- other one of G.722. The number has 16 bits.
abbrev pub frame_samples : {E B T : Type 0} → AudioEnv E B T → Bool → Bytes → ℕ
frame_samples env true mb = pairs (env.filter mb) / 2 % 2 ^ 16
frame_samples env false mb = pairs (env.filter mb) % 2 ^ 16

pairs-length : (bs : Bytes) → pairs bs ≡ length bs / 2
unfolding pairs
pairs-length [] = refl
pairs-length (a ∷ []) = refl
pairs-length (a ∷ b ∷ bs) = omega (arith, pairs-length bs)

samples-frame :
    {E B T : Type 0} (env : AudioEnv E B T) (g722 : Bool) (mb : Bytes)
    → samples g722 (env.filter mb) ≡ frame_samples env g722 mb
samples-frame env true mb = omega (arith, pairs-length (env.filter mb))
samples-frame env false mb = omega (arith, pairs-length (env.filter mb))

module _ {J E B T : Type 0} (env : AudioEnv E B T) (pt : ℕ) (can : CanSend pt env) where
  -- what comes of a frame that is sent
  Stamped : ℕ → Audio J E B T → List SendEffect × Audio J E B T → Type 0
  Stamped nsamp a (sent, a') =
      (stamps sent ≡ (a.tx.marker, (pt, a.tx.ts)) ∷ [])
      × ((a'.tx.ts ≡ add_word a.tx.ts nsamp)
          × ((a'.tx.marker ≡ false) × ((a'.tx.is_g722 ≡ a.tx.is_g722) × Sending pt a')))

  sent_stamp :
      (out : Bytes) (nsamp : ℕ) (e : E) (a : Audio J E B T)
      → Sending pt a
      → Stamped nsamp a
          (send_encoded env out nsamp (record a { tx = record a.tx { enc = some e } }))
  unfolding Stamped
  sent_stamp out nsamp e a s =
      let both = ap env.net.dir s.direction ∙ can.both_ways in
      let sends =
        stream_sends env.net a.tx.marker pt a.tx.ts out a.strm can.has_address both s.payload in
      let keeps = stream_keeps env.net a.tx.marker none a.tx.ts out a.strm in
      rw
        (sends
          ∙ ap (λ r. (r, rtp_send a.tx.marker pt a.tx.ts out ∷ rtpkeep_refresh a.tx.ts ∷ []))
              can.is_sent)
        (
          ap (λ r. stamps r.1) sends,
          (
            refl,
            (
              refl,
              (
                refl,
                record {
                  has_encoder = λ n. ground (arith, n);
                  direction = keeps.0 ∙ s.direction;
                  payload = keeps.1 ∙ s.payload;
                },
              ),
            ),
          ),
        )

  -- the encoder's part of a frame
  encode_stamp :
      (mb : Bytes) (nsamp : ℕ) (e : E) (a : Audio J E B T)
      → Sending pt a
      → Stamped nsamp a (encode_with env e mb nsamp a)
  encode_stamp mb nsamp e a s =
      rw (can.no_error mb e, can.some_bytes mb e)
        (sent_stamp (env.ench mb e).0.1 nsamp (env.ench mb e).1 a s)

  at_stamp :
      (mb : Bytes) (nsamp : ℕ) (o : Option E) (a : Audio J E B T)
      → o ≢ none
      → Sending pt a
      → Stamped nsamp a (encode_at env o mb nsamp a)
  at_stamp mb nsamp none a n s = elim (n refl) [ ]
  at_stamp mb nsamp (some e) a n s = encode_stamp mb nsamp e a s

  frame_stamp :
      (mb : Bytes) (a : Audio J E B T)
      → Sending pt a
      → Stamped (samples a.tx.is_g722 (env.filter mb)) a (process_audio_encode env mb a)
  unfolding process_audio_encode encode_rtp_send
  frame_stamp mb a s = at_stamp (env.filter mb) _ a.tx.enc a s.has_encoder s

  stamps_from :
      (total : ℕ) (mbs : List Bytes) (a : Audio J E B T)
      → Sending pt a
      → a.tx.ts ≡ total % 2 ^ 32
      → stamps (encode_all env mbs a).0
        ≡ expected (frame_samples env a.tx.is_g722) a.tx.marker pt total mbs
  unfolding encode_all expected Stamped
  stamps_from total [] a s e = refl
  stamps_from total (mb ∷ mbs) a s e =
      let a' = (process_audio_encode env mb a).1 in
      let (now, (ts, (unmarked, (same, s')))) = frame_stamp mb a s in
      let n = frame_samples env a.tx.is_g722 mb in
      let later =
        stamps_from (total + n) mbs a' s'
          (omega (arith, ts, e, samples-frame env a.tx.is_g722 mb)) in
      let first = now ∙ ap (λ t. (a.tx.marker, (pt, t)) ∷ []) e in
      stamps-append (process_audio_encode env mb a).0 (encode_all env mbs a').0
      ∙ ap₂ (λ x y. x ++ y) first
          (later ∙ ap₂ (λ g m. expected (frame_samples env g) m pt (total + n) mbs) same unmarked)

  -- For any frames of audio in turn, where the encoder has no error and the stream can send: one
  -- RTP packet is sent for each frame, of the payload type that was agreed; the first has the
  -- marker bit if it was set, and no other; and each has as its time stamp, of 32 bits, that of the
  -- first and the number of samples in the frames before it, where a sample is a whole pair of
  -- bytes, only every other one counts for G.722, and the number of each frame has 16 bits.
  pub encode_all-stamps :
      (mbs : List Bytes) (a : Audio J E B T)
      → Sending pt a
      → a.tx.ts < 2 ^ 32
      → stamps (encode_all env mbs a).0
        ≡ expected (frame_samples env a.tx.is_g722) a.tx.marker pt a.tx.ts mbs
  encode_all-stamps mbs a s h = stamps_from a.tx.ts mbs a s (omega (arith, h))
