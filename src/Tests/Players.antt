-- ===== src/Tests/Players.antt =====
-- Examples for the player of tones (jni/baresip/src/play.c).
use bare_sip_android.Prelude.{
  ℕ, ◌≡◌, refl, inl, inr, true, false, Option, none, some, List, [], ◌∷◌, arith,
}
use bare_sip_android.Play.Player.{
  polling, Play, Happening, frame, expire, PlayEnv, start_tone, write_handler,
}
use bare_sip_android.Play.Ends.{Round, run_rounds, start_tone-ends}

abbrev fine : PlayEnv
fine = record { mem = true; lock_err = 0; auplay_err = 0 }

abbrev beep : Option ℕ → Play
beep n = record { tone = 1 ∷ 2 ∷ []; pos = 0; tmr = polling; delay = 1000; repeat = n; eof = false }

-- The frame that the tone does not fill is silence, and its end.
last_frame : (write_handler 3 (beep (some 1))).0 ≡ 0 ∷ 0 ∷ 0 ∷ []
unfolding write_handler
last_frame = refl

abbrev round : List Happening
round = frame 1 ∷ expire ∷ []

is_round : Round round
is_round = (inl (refl, omega arith), inr (inl refl))

abbrev six : List (List Happening)
six = round ∷ round ∷ round ∷ round ∷ round ∷ round ∷ []

start_tone-ends_example : run_rounds six (some (beep (some 1))) ≡ none
unfolding start_tone
start_tone-ends_example =
    start_tone-ends fine false (1 ∷ 2 ∷ []) 0 1 (beep (some 1)) refl six
      (is_round, (is_round, (is_round, (is_round, (is_round, (is_round, tt)))))) (omega arith)
