-- ===== src/Tests/Streams.antt =====
-- Examples for media and audio streams and filters (jni/baresip/src/stream.c, audio.c, aufilt.c).
use bare_sip_android.Prelude.{
  ◌≤◌, ℕ, ◌+◌, ◌*◌, ◌-◌, ◌%◌, ◌^◌, ◌≡◌, refl, Bool, true, false, none, some, List, [], ◌∷◌, map,
  length, drop, arith, ◌==◌, if◌then◌else◌, Bytes,
}
use bare_sip_android.Stream.Lost.{lostcalcs, no_seq}
use bare_sip_android.Stream.Tracker.{
  wire, track, tracks, NearAll, tracked, lost_count, fresh_count, lostcalcs-refine,
}
use bare_sip_android.Stream.State.{JbufOps, Stats, Stream}
use bare_sip_android.Stream.Receive.{rtp_recvs}
use bare_sip_android.Stream.Received.{Numbered, on_wire, told, Plain, rtp_recvs-told}
use bare_sip_android.Stream.Send.{SendEnv, rtp_send, rtpkeep_refresh, stream_send}
use bare_sip_android.Stream.Sent.{renegotiate, stream_hold-send}
use bare_sip_android.Aufilt.{
  Aufilt, AufiltPrm, aufilt_register, alloc_elems, aufilt_chain_alloc, some_chain, handed,
  run_chain, aufilt_chain_encode, aufilt_chain_encode-register,
}
use bare_sip_android.Audio.Devices.{mode_thread, Devices, DeviceEnv}
use bare_sip_android.Audio.Threads.{
  DeviceOp, op_start, op_stop, run_count, wrong_joins, failing, device_ops, OneThread,
  device_ops-OneThread,
}
use bare_sip_android.Audio.State.{Audio, AudioEnv}
use bare_sip_android.Audio.Transmit.{encode_all}
use bare_sip_android.Audio.Stamps.{stamps, expected, frame_samples, encode_all-stamps}
use bare_sip_android.Audio.Decode.{DecodeEnv, left_of, decode_loop, decode_loop-left}

-- across the end of the 16 bits: one is lost, one comes twice
abbrev arrivals : List ℕ
arrivals = 65537 ∷ 65537 ∷ []

near : NearAll 65535 arrivals
unfolding NearAll track
near = ((omega arith, omega arith), ((omega arith, omega arith), tt))

lostcalcs-refine_example :
    (lostcalcs no_seq (map wire (65535 ∷ arrivals)) ≡ tracked 65535 arrivals)
    × (65535 + lost_count (tracks 65535 arrivals).0 + fresh_count (tracks 65535 arrivals).0
        ≡ (tracks 65535 arrivals).1)
lostcalcs-refine_example = lostcalcs-refine 65535 arrivals near

abbrev no_jbuf : JbufOps Bool
no_jbuf = record { flush = λ j. j; put = λ h mb j. (0, j); take_frame = λ j. (none, j) }

abbrev no_stats : Stats
no_stats = record { n_tx = 0; n_rx = 0; b_tx = 0; b_rx = 0; bitrate_tx = 0; bitrate_rx = 0; ts = 0 }

abbrev audio_stream : Stream Bool
audio_stream = record {
  jbuf = none;
  ldir = 3;
  rtpkeep = false;
  ssrc_rx = 0;
  pseq = 65535;
  rtcp_mux = false;
  pt_enc = some 8;
  tmr_stats = 0;
  stats = no_stats;
}

abbrev packet : ℕ → Numbered
packet n = (n, (record { seq = 0; ts = 0; ssrc = 7 }, 1 ∷ []))

abbrev two : List Numbered
two = packet 65537 ∷ packet 65537 ∷ []

plain : Plain 65535 audio_stream
plain = record { no_jbuf = refl; receives = refl; at_newest = refl; word = omega arith }

rtp_recvs-told_example :
    ((rtp_recvs no_jbuf (map on_wire two) audio_stream).0 ≡ told 65535 two)
    × ((rtp_recvs no_jbuf (map on_wire two) audio_stream).1.stats.n_rx ≡ (0 + length two) % 2 ^ 32)
rtp_recvs-told_example =
    rtp_recvs-told no_jbuf 65535 two audio_stream plain near (omega arith, (omega arith, tt))

-- the media is only sent and received where both ends do
abbrev both_only : ℕ → ℕ
both_only l = if l == 3 then 3 else 0

abbrev net : SendEnv
net = record {
  raddr_set = true;
  dir = both_only;
  rformat = some 8;
  rport = 4000;
  rattr_mux = false;
  cfg_mux = false;
  menc_updateh = false;
  has_rtpkeep = false;
  keep_err = 0;
  send_err = 0;
}

stream_hold-send_example :
    (stream_send net true (some 8) 160 (1 ∷ []) (renegotiate net true audio_stream)
      ≡ ((0, []), renegotiate net true audio_stream))
    × ((stream_send net true none 160
          (1 ∷ [])
          (renegotiate net false (renegotiate net true audio_stream))).0
        ≡ (0, rtp_send true 8 160 (1 ∷ []) ∷ rtpkeep_refresh 160 ∷ []))
stream_hold-send_example =
    stream_hold-send net true (some 8) 8 160 (1 ∷ []) audio_stream refl refl refl refl

abbrev plain_codec : AudioEnv ℕ ℕ ℕ
plain_codec = record {
  mem = true;
  ench = λ mb e. ((0, 1 ∷ mb), e);
  filter = λ mb. mb;
  aubuf_write = λ mb b. (0, b);
  aubuf_get = λ p s b. ((0, []), b);
  telev_poll = λ t. ((1, (false, [])), t);
  telev_pt = none;
  net = net;
}

abbrev speaker : Audio Bool ℕ ℕ ℕ
speaker = record {
  tx = record {
    enc = some 0;
    ab = none;
    ptime = 20;
    ts = 4294967295;
    ts_tel = 0;
    psize = 320;
    marker = true;
    is_g722 = false;
    muted = false;
    poll = true;
  };
  strm = audio_stream;
  telev = 0;
}

encode_all-stamps_example :
    stamps (encode_all plain_codec ((1 ∷ 2 ∷ []) ∷ (3 ∷ 4 ∷ []) ∷ []) speaker).0
    ≡ expected
        (frame_samples plain_codec false)
        true
        8
        4294967295
        ((1 ∷ 2 ∷ []) ∷ (3 ∷ 4 ∷ []) ∷ [])
encode_all-stamps_example =
    encode_all-stamps plain_codec 8
      (record {
        no_error = λ mb e. refl;
        some_bytes = λ mb e. ground arith;
        has_address = refl;
        both_ways = refl;
        is_sent = refl;
      })
      ((1 ∷ 2 ∷ []) ∷ (3 ∷ 4 ∷ []) ∷ []) speaker
      (record { has_encoder = λ n. ground (arith, n); direction = refl; payload = refl })
      (omega arith)

-- a decoder of frames of two bytes
abbrev take_two : DecodeEnv ℕ
take_two = record {
  dech = λ mb d. (
    record { err = 0; pcm = 5 ∷ []; rest = elim mb [ none ↦ none | some bs ↦ some (drop 2 bs) ] },
    d,
  );
  filter_dec = λ b. (0, b);
  aubuf_write = λ b. 0;
}

decode_loop-left_example :
    left_of (decode_loop take_two 64 (some (1 ∷ 2 ∷ 3 ∷ 4 ∷ [])) [] 0).0.rest ≡ 4 - 2 * 65
decode_loop-left_example =
    decode_loop-left take_two 2 (1 ∷ 2 ∷ 3 ∷ 4 ∷ []) [] 0 (λ mb d. (refl, refl))

abbrev louder : Bytes → ℕ → (ℕ × Bytes) × ℕ
louder mb st = ((0, map (λ b. b + 1) mb), st + 1)

abbrev gain : Aufilt ℕ
gain = record {
  name = b'g' ∷ [];
  alloch = λ encprm decprm. (0, 0);
  ench = some louder;
  dech = none;
  updh = none;
}

abbrev filt_prm : AufiltPrm
filt_prm = record { srate = 8000; srate_out = 8000; ch = 1; frame_size = 160 }

one_filter : aufilt_register true true gain (gain ∷ []) ≡ (gain ∷ gain ∷ [], 0)
unfolding aufilt_register
one_filter = refl

one_chain :
    aufilt_chain_alloc true true (λ af. true) filt_prm filt_prm (gain ∷ [])
    ≡ (0, some ((gain, 0) ∷ []))
unfolding aufilt_chain_alloc alloc_elems
one_chain = refl

aufilt_chain_encode-register_example :
    (aufilt_chain_alloc true true (λ af. true) filt_prm filt_prm (gain ∷ gain ∷ [])
      ≡ (0, some ((gain, 0) ∷ (gain, 0) ∷ [])))
    × (aufilt_chain_encode (some ((gain, 0) ∷ (gain, 0) ∷ [])) (1 ∷ [])
        ≡ some_chain
            (handed (some louder) (run_chain Aufilt.ench ((gain, 0) ∷ []) (1 ∷ [])) gain 0))
aufilt_chain_encode-register_example =
    aufilt_chain_encode-register true true true (λ af. true) filt_prm filt_prm gain (gain ∷ [])
      (gain ∷ gain ∷ []) ((gain, 0) ∷ []) (1 ∷ []) one_filter one_chain refl refl

abbrev threaded : DeviceEnv
threaded = record {
  mode = mode_thread;
  enc = some (record { is_g722 = false; srate = 8000; ch = 1 });
  dec = some (record { is_g722 = false; srate = 8000; ch = 1 });
  tx_ptime = 20;
  rx_ptime = 20;
  srate_src = record { min = 0; max = 0 };
  srate_play = record { min = 0; max = 0 };
  src_first = true;
  has_filters = true;
  has_auplay = true;
  has_ausrc = true;
  chain_err = λ encprm decprm. 0;
  rx_ab_err = 0;
  tx_ab_err = 0;
  auplay_err = λ rate ch size. 0;
  ausrc_err = λ rate ch size. 0;
  pthread_err = 0;
}

abbrev no_thread : DeviceEnv
no_thread = record threaded { pthread_err = 11 }

abbrev no_devices : Devices
no_devices = record {
  auplay = false;
  ausrc = false;
  rx_ab = false;
  tx_ab = false;
  fc = false;
  run = false;
  threads = 0;
  tmr = false;
  psize = 0;
}

-- a start that makes no thread, one that finds the flag, and one behind a stop
abbrev starts : List DeviceOp
starts =
    op_start no_thread
    ∷ op_start threaded
    ∷ op_stop mode_thread
    ∷ op_start threaded
    ∷ op_stop mode_thread
    ∷ []

device_ops-OneThread_example :
    OneThread (device_ops starts no_devices).1
    × (wrong_joins (device_ops starts no_devices).0
          + run_count (device_ops starts no_devices).1.run
          + 0
        ≤ 0 + (device_ops starts no_devices).1.threads + failing starts)
device_ops-OneThread_example = device_ops-OneThread starts no_devices (omega arith)
