-- ===== src/Play/Player.antt =====
-- A player of a tone, driven by the audio driver and by its timer (jni/baresip/src/play.c). A
-- player that was released is `none`; the driver no longer calls it, and its timer is cancelled.
use bare_sip_android.Prelude.{
  ℕ, zero, suc, ◌+◌, ◌-◌, Bool, true, false, not, Option, none, some, List, [], ◌∷◌, length, take,
  drop, ltb, ◌==◌, if◌then◌else◌, Bytes, enomem, ealready,
}

-- the handler that the timer was started with last
pub data Timer : Type 0 where
  polling repeating stopping : Timer

-- `delay` is that of the timer, and a negative number of times to repeat is `none`.
pub record Play : Type 0 where
  pub tone : Bytes
  pub pos : ℕ
  pub tmr : Timer
  pub delay : ℕ
  pub repeat : Option ℕ
  pub eof : Bool

abbrev pub silence_dur : ℕ
silence_dur = 2000

abbrev pub mbuf_left : Play → ℕ
mbuf_left p = length p.tone - p.pos

-- `if (play->repeat > 0) play->repeat--;`
abbrev pub count_down : Option ℕ → Option ℕ
count_down none = none
count_down (some n) = some (n - 1)

abbrev next_timer : Play → Play
next_timer p = elim p.repeat [
  | none ↦ record p { tmr = repeating; delay = silence_dur }
  | some n ↦
      if n == 0
      then record p { tmr = stopping; delay = 1 }
      else record p { tmr = repeating; delay = silence_dur }
]

unfoldable pub tmr_polling : Play → Play
tmr_polling p =
    let q = record p { tmr = polling; delay = 1000 } in
    if q.eof then next_timer (record q { repeat = count_down q.repeat }) else q

unfoldable pub tmr_repeat : Play → Play
tmr_repeat p = record p { pos = 0; eof = false; tmr = polling; delay = 1000 }

abbrev pub silence : ℕ → Bytes
silence zero = []
silence (suc n) = 0 ∷ silence n

-- what the driver gets for a frame of `sz` bytes
unfoldable pub write_handler : ℕ → Play → Bytes × Play
write_handler sz p =
    if p.eof
    then (silence sz, p)
    else if ltb (mbuf_left p) sz
    then (silence sz, record p { eof = true })
    else (take sz (drop p.pos p.tone), record p { pos = p.pos + sz })

-- The driver asks for a frame, or the timer runs out.
pub data Happening : Type 0 where
  frame : ℕ → Happening
  expire : Happening

abbrev pub run_timer : Timer → Play → Option Play
run_timer polling p = some (tmr_polling p)
run_timer repeating p = some (tmr_repeat p)
run_timer stopping p = none

unfoldable pub happen : Happening → Option Play → Option Play
unfolding tmr_polling tmr_repeat write_handler
happen h none = none
happen (frame sz) (some p) = some (write_handler sz p).1
happen expire (some p) = run_timer p.tmr p

unfoldable pub happens : List Happening → Option Play → Option Play
happens [] o = o
happens (h ∷ hs) o = happens hs (happen h o)

-- whether memory, the lock and the audio player can be had
pub record PlayEnv : Type 0 where
  pub mem : Bool
  pub lock_err : ℕ
  pub auplay_err : ℕ

-- `busy` tells that `*playp` is a player; the tone is played from its position.
unfoldable pub start_tone : PlayEnv → Bool → Bytes → ℕ → Option ℕ → ℕ × Option Play
start_tone env busy tone pos repeat =
    if busy
    then (ealready, none)
    else if not env.mem
    then (enomem, none)
    else if not (env.lock_err == 0)
    then (env.lock_err, none)
    else if not (env.auplay_err == 0)
    then (env.auplay_err, none)
    else (
      0,
      some (record {
        tone = tone;
        pos = pos;
        tmr = polling;
        delay = 1000;
        repeat = repeat;
        eof = false;
      }),
    )
