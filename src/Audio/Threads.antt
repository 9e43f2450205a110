-- ===== src/Audio/Threads.antt =====
-- The threads of an audio stream (jni/baresip/src/audio.c, audio_start, audio_stop).
use bare_sip_android.Prelude.{
  ℕ, ◌+◌, ◌≤◌, ◌≡◌, refl, ap, Bool, true, false, not, ◌&&◌, Option, none, some, List, [], ◌∷◌, ◌++◌,
  ◌==◌, if◌then◌else◌, arith, if_either,
}
use bare_sip_android.Audio.State.{Codec}
use bare_sip_android.Audio.Devices.{
  AudioMode, mode_poll, mode_thread, mode_thread_realtime, mode_tmr, Devices, DeviceEnv, Joined,
  joined, not_made, aufilt_setup, player_at, start_player, start_thread, start_mode, open_source,
  alloc_source, source_at, start_source, start_both, audio_start, audio_stop,
}

-- starting and stopping an audio stream
pub data DeviceOp : Type 0 where
  op_start : DeviceEnv → DeviceOp
  op_stop : AudioMode → DeviceOp

-- the flag as a number
abbrev pub run_count : Bool → ℕ
run_count true = 1
run_count false = 0

abbrev pub one_failed : DeviceEnv → ℕ
one_failed env = if env.pthread_err == 0 then 0 else 1

-- the starts in whose environment no thread can be made
abbrev pub failing : List DeviceOp → ℕ
failing [] = 0
failing (op_start env ∷ ops) = one_failed env + failing ops
failing (op_stop m ∷ ops) = failing ops

-- how often a thread was waited for that was never made
abbrev pub wrong_joins : List Joined → ℕ
wrong_joins [] = 0
wrong_joins (joined ∷ js) = wrong_joins js
wrong_joins (not_made ∷ js) = 1 + wrong_joins js

-- what the operations in turn wait for, and what they leave
unfoldable pub device_ops : List DeviceOp → Devices → List Joined × Devices
unfolding audio_start audio_stop
device_ops [] d = ([], d)
device_ops (op_start env ∷ ops) d = device_ops ops (audio_start env d).1
device_ops (op_stop m ∷ ops) d =
    let (js, d') = audio_stop m d in let (more, end) = device_ops ops d' in (js ++ more, end)

-- There is at most one thread, and none without the flag.
abbrev pub OneThread : Devices → Type 0
OneThread d = d.threads ≤ run_count d.run

module _ (env : DeviceEnv) where
  -- what a start did to the flag and the threads: `run` and `threads` are those before
  abbrev Started : Bool → ℕ → Bool → ℕ → Type 0
  Started run threads run' threads' =
      (threads' ≤ run_count run')
      × (run_count run' + threads ≤ run_count run + threads' + one_failed env)

  player_keeps :
      (R : Bool → ℕ → Type 0) (srate : ℕ) (o : Option Codec) (d : Devices)
      → R d.run d.threads
      → R (player_at env srate o d).1.run (player_at env srate o d).1.threads
  player_keeps R srate none d f = f
  player_keeps R srate (some ac) d f =
      if_either {A = ℕ × Devices} (λ q. R q.1.run q.1.threads) (not d.auplay && env.has_auplay)
        (if_either {A = ℕ × Devices} (λ q. R q.1.run q.1.threads) d.rx_ab f
          (if_either {A = ℕ × Devices} (λ q. R q.1.run q.1.threads) (env.rx_ab_err == 0) f f))
        f

  thread-Started :
      (d : Devices)
      → OneThread d
      → Started d.run d.threads (start_thread env d).1.run (start_thread env d).1.threads
  thread-Started d h = ground (arith, h)

  Started-same : (d : Devices) → OneThread d → Started d.run d.threads d.run d.threads
  Started-same d h = (h, omega arith)

  mode-Started :
      (m : AudioMode) (d : Devices)
      → OneThread d
      → Started d.run d.threads (start_mode env m d).1.run (start_mode env m d).1.threads
  mode-Started mode_poll d h = Started-same d h
  mode-Started mode_thread d h = thread-Started d h
  mode-Started mode_thread_realtime d h = thread-Started d h
  mode-Started mode_tmr d h = Started-same d h

  abbrev After : Devices → ℕ × Devices → Type 0
  After d q = Started d.run d.threads q.1.run q.1.threads

  open-Started : (err : ℕ) (d : Devices) → OneThread d → After d (open_source env err d)
  open-Started err d h =
      if_either (After d) (err == 0) (mode-Started env.mode (record d { ausrc = true }) h)
        (Started-same d h)

  alloc-Started :
      (srate : ℕ) (ac : Codec) (d : Devices) → OneThread d → After d (alloc_source env srate ac d)
  alloc-Started srate ac d h =
      if_either (After d) d.tx_ab (open-Started _ _ h)
        (if_either (After d) (env.tx_ab_err == 0) (open-Started _ _ h) (Started-same d h))

  source-Started :
      (srate : ℕ) (o : Option Codec) (d : Devices) → OneThread d → After d (source_at env srate o d)
  source-Started srate none d h = Started-same d h
  source-Started srate (some ac) d h =
      if_either (After d) (not d.ausrc && env.has_ausrc) (alloc-Started srate ac d h)
        (Started-same d h)

  -- a start of the source behind one of the player
  second-Started :
      (enc dec : ℕ) (d : Devices)
      → OneThread d
      → After d (source_at env enc env.enc (player_at env dec env.dec d).1)
  second-Started enc dec d h =
      let dp = (player_at env dec env.dec d).1 in
      let (same_run, same_threads) =
        player_keeps (λ r t. (r ≡ d.run) × (t ≡ d.threads)) dec env.dec d (refl, refl) in
      let count = ap run_count same_run in
      let one : OneThread dp = omega (arith, h, count, same_threads) in
      let (few, fair) = source-Started enc env.enc dp one in
      (few, omega (arith, fair, count, same_threads))

  both-Started :
      (err enc dec : ℕ) (d : Devices)
      → OneThread d
      → After d (start_both env ((err, (enc, dec)), d))
  unfolding start_source start_player
  both-Started err enc dec d h = if_either (After d) (not (err == 0)) (Started-same d h) (
      if_either (After d) env.src_first
        (player_keeps (Started d.run d.threads) dec env.dec _ (source-Started enc env.enc d h))
        (second-Started enc dec d h))

  start-Started : (d : Devices) → OneThread d → After d (audio_start env d)
  unfolding audio_start aufilt_setup
  start-Started d h =
      if_either {A = (ℕ × (ℕ × ℕ)) × Devices} (λ q. After d (start_both env q))
        (not d.fc && env.has_filters)
        (both-Started (aufilt_setup env d).0.0 (aufilt_setup env d).0.1.0 (aufilt_setup env d).0.1.1
          (record d { fc = (aufilt_setup env d).0.0 == 0 }) h)
        (both-Started 0 0 0 d h)

-- what stopping did: a thread is waited for where there is the flag
stop_fair :
    (m : AudioMode) (d : Devices)
    → OneThread d
    → OneThread (audio_stop m d).1
      × (wrong_joins (audio_stop m d).0 + run_count (audio_stop m d).1.run + d.threads
          ≤ run_count d.run + (audio_stop m d).1.threads)
unfolding audio_stop
stop_fair mode_poll d h = (h, omega arith)
stop_fair mode_thread d h = ground (arith, h)
stop_fair mode_thread_realtime d h = ground (arith, h)
stop_fair mode_tmr d h = (h, omega arith)

wrong_joins-append :
    (xs ys : List Joined) → wrong_joins (xs ++ ys) ≡ wrong_joins xs + wrong_joins ys
wrong_joins-append [] ys = omega arith
wrong_joins-append (joined ∷ xs) ys = wrong_joins-append xs ys
wrong_joins-append (not_made ∷ xs) ys = omega (arith, wrong_joins-append xs ys)

-- An audio stream with at most one thread, and none without the flag, stays so however it is started
-- and stopped, in whatever environments and modes: no second thread is made beside a first. And how
-- often stopping waited for a thread that was never made, with one more if the flag is set without
-- a thread at the end, is at most the number of the starts whose environment makes no thread, with
-- one more if it was so at first.
pub device_ops-OneThread :
    (ops : List DeviceOp) (d : Devices)
    → OneThread d
    → OneThread (device_ops ops d).1
      × (wrong_joins (device_ops ops d).0 + run_count (device_ops ops d).1.run + d.threads
          ≤ run_count d.run + (device_ops ops d).1.threads + failing ops)
unfolding device_ops
device_ops-OneThread [] d h = (h, omega arith)
device_ops-OneThread (op_start env ∷ ops) d h =
    let (few, fair) = start-Started env d h in
    let (one, later) = device_ops-OneThread ops (audio_start env d).1 few in
    (one, omega (arith, fair, later))
device_ops-OneThread (op_stop m ∷ ops) d h =
    let (few, fair) = stop_fair m d h in
    let (one, later) = device_ops-OneThread ops (audio_stop m d).1 few in
    let split = wrong_joins-append (audio_stop m d).0 (device_ops ops (audio_stop m d).1).0 in
    (one, omega (arith, fair, later, split))
