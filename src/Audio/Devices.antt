-- ===== src/Audio/Devices.antt =====
-- How the devices of an audio stream are started and stopped (jni/baresip/src/audio.c, aufilt_setup,
-- start_player, start_source, audio_start, audio_stop). The drivers, the filters and the threads are
-- the libraries': their errors are parameters.
use bare_sip_android.Prelude.{
  ℕ, ◌+◌, ◌-◌, ◌*◌, Bool, true, false, not, ◌&&◌, Option, none, some, List, [], ◌∷◌, ◌==◌, leb,
  bit_or, if◌then◌else◌,
}
use bare_sip_android.Audio.State.{Codec, get_srate, calc_nsamp}
use bare_sip_android.Aufilt.{AufiltPrm}

pub data AudioMode : Type 0 where
  mode_poll mode_thread mode_thread_realtime mode_tmr : AudioMode

-- `struct range`
pub record Range : Type 0 where
  pub min : ℕ
  pub max : ℕ

-- `run` is the flag of the thread, `threads` the number of threads that were made and not waited for;
-- `psize` is tx->psize.
pub record Devices : Type 0 where
  pub auplay : Bool
  pub ausrc : Bool
  pub rx_ab : Bool
  pub tx_ab : Bool
  pub fc : Bool
  pub run : Bool
  pub threads : ℕ
  pub tmr : Bool
  pub psize : ℕ

pub record DeviceEnv : Type 0 where
  pub mode : AudioMode
  pub enc : Option Codec
  pub dec : Option Codec
  pub tx_ptime : ℕ
  pub rx_ptime : ℕ
  pub srate_src : Range
  pub srate_play : Range
  pub src_first : Bool
  pub has_filters : Bool
  pub has_auplay : Bool
  pub has_ausrc : Bool
  pub chain_err : AufiltPrm → AufiltPrm → ℕ
  pub rx_ab_err : ℕ
  pub tx_ab_err : ℕ
  pub auplay_err : ℕ → ℕ → ℕ → ℕ  -- by the rate, the channels and the size of a frame
  pub ausrc_err : ℕ → ℕ → ℕ → ℕ
  pub pthread_err : ℕ

-- what audio_stop waits for: a thread that there is, or one that was never made
pub data Joined : Type 0 where
  joined not_made : Joined

abbrev pub ranged : Range → ℕ → ℕ
ranged r srate =
    if not (r.min == 0)
    then (if leb srate r.min then r.min else srate)
    else if not (r.max == 0)
    then (if leb srate r.max then srate else r.max)
    else srate

abbrev no_prm : AufiltPrm
no_prm = record { srate = 0; srate_out = 0; ch = 0; frame_size = 0 }

abbrev encprm_of : DeviceEnv → Option Codec → AufiltPrm
encprm_of env none = no_prm
encprm_of env (some ac) = record {
  srate = ranged env.srate_src (get_srate ac);
  srate_out = get_srate ac;
  ch = ac.ch;
  frame_size = calc_nsamp (get_srate ac) ac.ch env.tx_ptime;
}

-- The size of a frame is computed from the parameters of the encoder.
abbrev decprm_of : DeviceEnv → AufiltPrm → Option Codec → AufiltPrm
decprm_of env encprm none = no_prm
decprm_of env encprm (some ac) = record {
  srate = get_srate ac;
  srate_out = ranged env.srate_play (get_srate ac);
  ch = ac.ch;
  frame_size = calc_nsamp encprm.srate encprm.ch env.rx_ptime;
}

-- the error, the rates for the source and the player, and the devices
unfoldable pub aufilt_setup : DeviceEnv → Devices → (ℕ × (ℕ × ℕ)) × Devices
unfolding get_srate calc_nsamp
aufilt_setup env d =
    let encprm = encprm_of env env.enc in
    let decprm = decprm_of env encprm env.dec in
    let err = env.chain_err encprm decprm in
    ((err, (encprm.srate, decprm.srate_out)), record d { fc = err == 0 })

abbrev rate_of : ℕ → Codec → ℕ
rate_of srate ac = if srate == 0 then get_srate ac else srate

abbrev pub alloc_player : DeviceEnv → ℕ → Codec → Devices → ℕ × Devices
alloc_player env srate_dec ac d =
    let srate = rate_of srate_dec ac in
    let err = env.auplay_err srate ac.ch (calc_nsamp srate ac.ch env.rx_ptime) in
    if d.rx_ab
    then (err, record d { auplay = err == 0 })
    else if env.rx_ab_err == 0
    then (err, record d { rx_ab = true; auplay = err == 0 })
    else (env.rx_ab_err, d)

abbrev pub player_at : DeviceEnv → ℕ → Option Codec → Devices → ℕ × Devices
player_at env srate_dec none d = (0, d)
player_at env srate_dec (some ac) d =
    if not d.auplay && env.has_auplay then alloc_player env srate_dec ac d else (0, d)

unfoldable pub start_player : DeviceEnv → ℕ → Devices → ℕ × Devices
unfolding get_srate calc_nsamp
start_player env srate_dec d = player_at env srate_dec env.dec d

-- Where the thread cannot be made, its identifier is cleared, but the flag stays.
abbrev pub start_thread : DeviceEnv → Devices → ℕ × Devices
start_thread env d = if d.run then (0, d) else (
  env.pthread_err,
  record d { run = true; threads = d.threads + (if env.pthread_err == 0 then 1 else 0) },
)

abbrev pub start_mode : DeviceEnv → AudioMode → Devices → ℕ × Devices
start_mode env mode_poll d = (0, d)
start_mode env mode_thread d = start_thread env d
start_mode env mode_thread_realtime d = start_thread env d
start_mode env mode_tmr d = (0, record d { tmr = true })

abbrev pub open_source : DeviceEnv → ℕ → Devices → ℕ × Devices
open_source env err d =
    if err == 0 then start_mode env env.mode (record d { ausrc = true }) else (err, d)

abbrev pub alloc_source : DeviceEnv → ℕ → Codec → Devices → ℕ × Devices
alloc_source env srate_enc ac d =
    let srate = rate_of srate_enc ac in
    let size = calc_nsamp srate ac.ch env.tx_ptime in
    let err = env.ausrc_err srate ac.ch size in
    let sized = record d { psize = 2 * size } in
    if sized.tx_ab
    then open_source env err sized
    else if env.tx_ab_err == 0
    then open_source env err (record sized { tx_ab = true })
    else (env.tx_ab_err, sized)

abbrev pub source_at : DeviceEnv → ℕ → Option Codec → Devices → ℕ × Devices
source_at env srate_enc none d = (0, d)
source_at env srate_enc (some ac) d =
    if not d.ausrc && env.has_ausrc then alloc_source env srate_enc ac d else (0, d)

unfoldable pub start_source : DeviceEnv → ℕ → Devices → ℕ × Devices
unfolding get_srate calc_nsamp
start_source env srate_enc d = source_at env srate_enc env.enc d

abbrev pub start_both : DeviceEnv → (ℕ × (ℕ × ℕ)) × Devices → ℕ × Devices
start_both env ((err, (enc, dec)), d) =
    let (s1, ds) = start_source env enc d in
    let (s2, dsp) = start_player env dec ds in
    let (p1, dp) = start_player env dec d in
    let (p2, dps) = start_source env enc dp in
    if not (err == 0)
    then (err, d)
    else if env.src_first
    then (bit_or s1 s2, dsp)
    else (bit_or p1 p2, dps)

-- stream_start has no error.
unfoldable pub audio_start : DeviceEnv → Devices → ℕ × Devices
unfolding aufilt_setup start_player start_source
audio_start env d =
    start_both env (if not d.fc && env.has_filters then aufilt_setup env d else ((0, (0, 0)), d))

abbrev join : Devices → List Joined
join d = if d.run then (if d.threads == 0 then not_made else joined) ∷ [] else []

abbrev join_thread : Devices → Devices
join_thread d = if d.run then record d { run = false; threads = d.threads - 1 } else d

abbrev pub stop_mode : AudioMode → Devices → List Joined × Devices
stop_mode mode_poll d = ([], d)
stop_mode mode_thread d = (join d, join_thread d)
stop_mode mode_thread_realtime d = (join d, join_thread d)
stop_mode mode_tmr d = ([], record d { tmr = false })

unfoldable pub audio_stop : AudioMode → Devices → List Joined × Devices
audio_stop mode d =
    let (js, d') = stop_mode mode d in
    (js, record d' { ausrc = false; auplay = false; fc = false; tx_ab = false; rx_ab = false })
