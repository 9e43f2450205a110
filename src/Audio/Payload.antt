-- ===== src/Audio/Payload.antt =====
-- What is done with a received packet, by its payload type (jni/baresip/src/audio.c,
-- stream_recv_handler, pt_handler, audio_decoder_set, handle_telev). SDP, the telephony events and
-- the starting of the player are parameters.
use bare_sip_android.Prelude.{
  ℕ, Bool, false, not, Option, none, some, List, [], ◌∷◌, map, ◌==◌, if◌then◌else◌, Bytes, enoent,
}
use bare_sip_android.Audio.State.{Codec, aucodec_equal}
use bare_sip_android.Audio.Decode.{Aurx, DecodeEnv, audio_stream_decode}

abbrev pub pt_cn : ℕ
pt_cn = 13

-- `shared` is the encoder's state where its codec equals the one that is set, `start_err` the error
-- of audio_start, and `telev_recv` the event with its end.
pub record PayloadEnv (D : Type 0) : Type 0 where
  pub decode : DecodeEnv D
  pub lformat : ℕ → Option Codec
  pub shared : Codec → Option D
  pub alloch : Codec → ℕ × D
  pub start_err : ℕ
  pub telev_recv : Bytes → Option (ℕ × Bool)
  pub code2digit : ℕ → Option ℕ
  pub eventh : Bool

pub data Received : Type 0 where
  digit_event : ℕ → Bool → Received
  played : Bytes → Received

module _ {D : Type 0} (env : PayloadEnv D) where
  abbrev differs : Option (Codec × D) → Codec → Bool
  differs none ac = false
  differs (some (old, d)) ac = not (aucodec_equal old ac)

  abbrev with_decoder : Codec → D → Bool → Aurx D → ℕ × Aurx D
  with_decoder ac d reset rx =
      let rx' = record rx { dec = some (ac, d) } in
      if reset
      then (env.start_err, record rx' { auplay = env.start_err == 0; fc = false })
      else (0, rx')

  abbrev set_decoder : Codec → Option D → Bool → Aurx D → ℕ × Aurx D
  set_decoder ac (some d) reset rx = with_decoder ac d reset rx
  set_decoder ac none reset rx =
      let (err, d) = env.alloch ac in if err == 0 then with_decoder ac d reset rx else (err, rx)

  unfoldable pub audio_decoder_set : Codec → ℕ → Aurx D → ℕ × Aurx D
  unfolding aucodec_equal
  audio_decoder_set ac pt rx =
      set_decoder ac (env.shared ac) (differs rx.dec ac) (record rx { pt = some pt; dec = none })

  abbrev set_format : ℕ → Option Codec → Aurx D → ℕ × Aurx D
  set_format pt none rx = (enoent, rx)
  set_format pt (some ac) rx = audio_decoder_set ac pt rx

  unfoldable pub pt_handler : ℕ → Aurx D → ℕ × Aurx D
  unfolding audio_decoder_set
  pt_handler pt rx = set_format pt (env.lformat pt) rx

  abbrev tell_digit : Option ℕ → Bool → List Received
  tell_digit none end = []
  tell_digit (some digit) end = if env.eventh then digit_event digit end ∷ [] else []

  abbrev tell_event : Option (ℕ × Bool) → List Received
  tell_event none = []
  tell_event (some (event, end)) = tell_digit (env.code2digit event) end

  unfoldable pub handle_telev : Bytes → List Received
  handle_telev mb = tell_event (env.telev_recv mb)

  abbrev decode_packet : Option Bytes → Aurx D → List Received × Aurx D
  decode_packet mb rx =
      let ((err, out), rx') = audio_stream_decode env.decode mb rx in (map played out, rx')

  abbrev is_pt : Option ℕ → ℕ → Bool
  is_pt none pt = false
  is_pt (some old) pt = pt == old

  abbrev by_payload : ℕ → Bytes → Aurx D → List Received × Aurx D
  by_payload pt mb rx =
      if is_pt rx.pt pt
      then decode_packet (some mb) rx
      else let (err, rx') = pt_handler pt rx in
        if err == 0 then decode_packet (some mb) rx' else ([], rx')

  -- `none` is a packet that was lost
  unfoldable pub stream_recv_handler : ℕ → Option Bytes → Aurx D → List Received × Aurx D
  unfolding pt_handler handle_telev audio_stream_decode
  stream_recv_handler pt none rx = decode_packet none rx
  stream_recv_handler pt (some mb) rx =
      if pt == rx.pt_tel
      then (handle_telev mb, rx)
      else if pt == pt_cn
      then ([], rx)
      else by_payload pt mb rx
