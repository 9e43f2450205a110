-- ===== src/Audio/Transmit.antt =====
-- How audio is sent (jni/baresip/src/audio.c, from ausrc_read_handler to encode_rtp_send). What the
-- stream sends is part of the results. There is memory for a frame of silence.
use bare_sip_android.Prelude.{
  ℕ, ◌/◌, ◌%◌, ◌^◌, Bool, false, not, Option, none, some, List, [], ◌∷◌, ◌++◌, map, length, ◌==◌,
  if◌then◌else◌, Bytes,
}
use bare_sip_android.Stream.State.{add_word}
use bare_sip_android.Stream.Send.{SendEffect, stream_send}
use bare_sip_android.Audio.State.{Audio, AudioEnv}

-- the number of samples, a `uint16_t`
abbrev pub samples : Bool → Bytes → ℕ
samples g722 mb = (length mb / (if g722 then 4 else 2)) % 2 ^ 16

abbrev pub silence : Bytes → Bytes
silence buf = map (λ b. 0) buf

module _ {J E B T : Type 0} (env : AudioEnv E B T) where
  abbrev pub advance : ℕ → Audio J E B T → Audio J E B T
  advance nsamp a = record a { tx = record a.tx { ts = add_word a.tx.ts nsamp; marker = false } }

  abbrev pub unmark : Audio J E B T → Audio J E B T
  unmark a = record a { tx = record a.tx { marker = false } }

  abbrev pub send_encoded : Bytes → ℕ → Audio J E B T → List SendEffect × Audio J E B T
  send_encoded out nsamp a =
      let ((err, sent), strm) = stream_send env.net a.tx.marker none a.tx.ts out a.strm in
      let a' = record a { strm = strm } in (sent, if err == 0 then advance nsamp a' else unmark a')

  abbrev pub encode_with : E → Bytes → ℕ → Audio J E B T → List SendEffect × Audio J E B T
  encode_with e mb nsamp a =
      let ((err, out), e') = env.ench mb e in
      let a' = record a { tx = record a.tx { enc = some e' } } in
      if not (err == 0)
      then ([], unmark a')
      else if length out == 0
      then ([], advance nsamp a')
      else send_encoded out nsamp a'

  abbrev pub encode_at : Option E → Bytes → ℕ → Audio J E B T → List SendEffect × Audio J E B T
  encode_at none mb nsamp a = ([], a)
  encode_at (some e) mb nsamp a = encode_with e mb nsamp a

  unfoldable pub encode_rtp_send : Bytes → ℕ → Audio J E B T → List SendEffect × Audio J E B T
  unfolding stream_send
  encode_rtp_send mb nsamp a = encode_at a.tx.enc mb nsamp a

  unfoldable pub process_audio_encode : Bytes → Audio J E B T → List SendEffect × Audio J E B T
  unfolding encode_rtp_send
  process_audio_encode mb a =
      let mb' = env.filter mb in encode_rtp_send mb' (samples a.tx.is_g722 mb') a

  abbrev poll_at : Option B → Audio J E B T → List SendEffect × Audio J E B T
  poll_at none a = ([], a)
  poll_at (some b) a =
      let ((err, mb), b') = env.aubuf_get a.tx.ptime a.tx.psize b in
      let a' = record a { tx = record a.tx { ab = some b' } } in
      if err == 0 then process_audio_encode mb a' else ([], a')

  unfoldable pub poll_aubuf_tx : Audio J E B T → List SendEffect × Audio J E B T
  unfolding process_audio_encode
  poll_aubuf_tx a = if env.mem then poll_at a.tx.ab a else ([], a)

  abbrev send_event : Option ℕ → Bool → Bytes → Audio J E B T → List SendEffect × Audio J E B T
  send_event none marker mb a = ([], a)
  send_event (some pt) marker mb a =
      let ((err, sent), strm) = stream_send env.net marker (some pt) a.tx.ts_tel mb a.strm in
      (sent, record a { strm = strm })

  unfoldable pub check_telev : Audio J E B T → List SendEffect × Audio J E B T
  unfolding stream_send
  check_telev a =
      let ((err, (marker, mb)), telev) = env.telev_poll a.telev in
      let a' = record a { telev = telev } in
      let timed = record a' {
        tx = record a'.tx { ts_tel = if marker then a.tx.ts else a.tx.ts_tel };
      } in
      if err == 0 then send_event env.telev_pt marker mb timed else ([], a')

  abbrev write_at : Option B → Bytes → Audio J E B T → List SendEffect × Audio J E B T
  write_at none buf a = ([], a)
  write_at (some b) buf a =
      let (err, b') = env.aubuf_write buf b in
      let a' = record a { tx = record a.tx { ab = some b' } } in
      if not (err == 0) then ([], a') else if a.tx.poll then poll_aubuf_tx a' else ([], a')

  unfoldable pub ausrc_read_handler : Bytes → Audio J E B T → List SendEffect × Audio J E B T
  unfolding poll_aubuf_tx check_telev
  ausrc_read_handler buf a =
      let (sent, a') = write_at a.tx.ab (if a.tx.muted then silence buf else buf) a in
      let (events, end) = check_telev a' in (sent ++ events, end)

  -- frames one after the other
  unfoldable pub encode_all : List Bytes → Audio J E B T → List SendEffect × Audio J E B T
  unfolding process_audio_encode
  encode_all [] a = ([], a)
  encode_all (mb ∷ mbs) a =
      let (now, a') = process_audio_encode mb a in
      let (then_, end) = encode_all mbs a' in (now ++ then_, end)

unfoldable pub audio_mute : {J E B T : Type 0} → Bool → Audio J E B T → Audio J E B T
audio_mute muted a = record a { tx = record a.tx { muted = muted } }
