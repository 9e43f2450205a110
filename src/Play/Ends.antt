-- ===== src/Play/Ends.antt =====
-- That a tone ends, or goes on for ever (jni/baresip/src/play.c).
use bare_sip_android.Prelude.{
  ℕ, ◌+◌, ◌*◌, ◌≤◌, ◌<◌, ◌≡◌, ◌≢◌, refl, ap, subst, sym, ◌∙◌, Bool, true, false, Option, none, some,
  List, [], ◌∷◌, All, length, Bytes, arith, ◌==◌, if◌then◌else◌, Bool-cases, ◌⊎◌, inl, inr,
}
use bare_sip_android.Play.Player.{
  Timer, polling, repeating, stopping, Play, Happening, frame, expire, happen, happens, PlayEnv,
  start_tone, run_timer, tmr_polling, tmr_repeat, write_handler,
}
use bare_sip_android.Play.Left.{
  left, waits_frame, Wanted, Counted, CountedIn, happen_step, happen-CountedIn, left_in, Waiting,
  again,
}

-- Something that a player waits for happens: a frame of some bytes, or its timer runs out.
abbrev pub Has : Bool → List Happening → Type 0
Has w [] = ⊥
Has w (h ∷ hs) = Wanted h w ⊎ Has w hs

-- The driver asks for a frame of some bytes and the timer runs out, in any order, among other
-- things that happen.
abbrev pub Round : List Happening → Type 0
Round hs = Has true hs × Has false hs

unfoldable pub run_rounds : List (List Happening) → Option Play → Option Play
run_rounds [] o = o
run_rounds (hs ∷ rounds) o = run_rounds rounds (happens hs o)

Has-Round : (w : Bool) (hs : List Happening) → Round hs → Has w hs
Has-Round true hs (f, e) = f
Has-Round false hs (f, e) = e

happen_left : (h : Happening) (o : Option Play) → CountedIn o → left (happen h o) ≤ left o
unfolding happen
happen_left h none c = omega arith
happen_left h (some p) c = elim (happen_step h p c) [
  | inl d ↦ omega (arith, d)
  | inr (q, (e, (w, n))) ↦ rw e w.same_left
]

happens_left :
    (hs : List Happening) (o : Option Play)
    → CountedIn o
    → (left (happens hs o) ≤ left o) × CountedIn (happens hs o)
unfolding happens
happens_left [] o c = (omega arith, c)
happens_left (h ∷ hs) o c =
    let c' = happen-CountedIn h o c in
    let (rest, end) = happens_left hs (happen h o) c' in
    (omega (arith, rest, happen_left h o c), end)

later :
    (h : Happening) (hs : List Happening) (p q : Play)
    → Waiting p q
    → ¬ Wanted h (waits_frame p)
    → Has (waits_frame p) (h ∷ hs)
    → (Has (waits_frame q) hs → left (happens hs (some q)) < left (some q))
    → left (happens hs (some q)) < left (some p)
later h hs p q w n r below = elim r [
  | inl k ↦ elim (n k) [ ]
  | inr k ↦ omega (arith, below (subst (λ b. Has b hs) (sym w.same_wait) k), w.same_left)
]

round_step :
    (hs : List Happening) (p : Play)
    → Counted p
    → Has (waits_frame p) hs
    → left (happens hs (some p)) < left (some p)
unfolding happens
round_step [] p c r = elim r [ ]
round_step (h ∷ hs) p c r = elim (happen_step h p c) [
  | inl d ↦
      omega (arith, d, (happens_left hs (happen h (some p)) (happen-CountedIn h (some p) c)).0)
  | inr (q, (e, (w, n))) ↦ rw e (later h hs p q w n r (round_step hs q (c.0, w.same_count ∙ c.1)))
]

left_pos : (p : Play) → 0 < left (some p)
left_pos p = pos_at p.tmr
  where
    pos_at : (t : Timer) → 0 < left_in t p
    pos_at polling = ground arith
    pos_at repeating = omega (arith, again p)
    pos_at stopping = omega arith

happens-none : (hs : List Happening) → happens hs none ≡ none
unfolding happens happen
happens-none [] = refl
happens-none (h ∷ hs) = happens-none hs

rounds_end :
    (rounds : List (List Happening)) (o : Option Play)
    → CountedIn o
    → All Round rounds
    → left o ≤ length rounds
    → run_rounds rounds o ≡ none
unfolding run_rounds
rounds_end [] none c r h = refl
rounds_end [] (some p) c r h = absurd (omega (arith, left_pos p, h))
rounds_end (hs ∷ rounds) none c (_, r) h =
    rw (happens-none hs) (rounds_end rounds none tt r (omega arith))
rounds_end (hs ∷ rounds) (some p) c (k, r) h =
    let d = round_step hs p c (Has-Round (waits_frame p) hs k) in
    rounds_end rounds (happens hs (some p)) (happens_left hs (some p) c).1 r (omega (arith, d, h))

-- the number of times that a tone is played
abbrev pub played : ℕ → ℕ
played n = if n == 0 then 1 else n

-- A tone that was started with a number of times to repeat, and not a negative one, is played to
-- its end and released, whatever the frames and the timer's course: enough rounds bring the end,
-- each of which has a frame of some bytes and an expiry of the timer somewhere in it.
pub start_tone-ends :
    (env : PlayEnv) (busy : Bool) (tone : Bytes) (pos n : ℕ) (p : Play)
    → start_tone env busy tone pos (some n) ≡ (0, some p)
    → (rounds : List (List Happening)) → All Round rounds
    → played n * (length tone + 4) ≤ length rounds
    → run_rounds rounds (some p) ≡ none
unfolding start_tone
start_tone-ends env busy tone pos n p e rounds r h =
    let begun : Play = record {
      tone = tone;
      pos = pos;
      tmr = polling;
      delay = 1000;
      repeat = some n;
      eof = false;
    } in
    let same : begun ≡ p = ground (arith, e) in
    subst (λ p. run_rounds rounds (some p) ≡ none) same
      (rounds_end rounds (some begun) (n, refl) r (omega (arith, again begun, h)))

-- A player that nothing stops: it repeats, and its timer is not the last.
Endless : Option Play → Type 0
Endless none = ⊥
Endless (some p) = (p.repeat ≡ none) × (p.tmr ≢ stopping)

polling-Endless : (p : Play) → p.repeat ≡ none → Endless (some (tmr_polling p))
unfolding Endless tmr_polling
polling-Endless p e = elim (Bool-cases p.eof) [
  | inl f ↦ rw (f, e) (refl, ground arith)
  | inr f ↦ rw (f) (e, ground arith)
]

timer-Endless : (t : Timer) (p : Play) → p.tmr ≡ t → Endless (some p) → Endless (run_timer t p)
unfolding Endless tmr_repeat
timer-Endless polling p at (e, t) = polling-Endless p e
timer-Endless repeating p at (e, t) = (e, ground arith)
timer-Endless stopping p at (e, t) = elim (t at) [ ]

frame_tmr : (sz : ℕ) (p : Play) → (write_handler sz p).1.tmr ≡ p.tmr
unfolding write_handler
frame_tmr sz p = ground arith

happens-Endless : (hs : List Happening) (o : Option Play) → Endless o → Endless (happens hs o)
unfolding happens happen write_handler Endless
happens-Endless [] o e = e
happens-Endless (h ∷ hs) none e = elim e [ ]
happens-Endless (frame sz ∷ hs) (some p) (e, t) =
    happens-Endless hs (some (write_handler sz p).1) (ground (arith, e), rw (frame_tmr sz p) t)
happens-Endless (expire ∷ hs) (some p) e =
    happens-Endless hs (run_timer p.tmr p) (timer-Endless p.tmr p refl e)

-- A tone that was started with a negative number of times to repeat is not released, whatever
-- frames are asked for and however often its timer runs out.
start_tone-endless :
    (env : PlayEnv) (busy : Bool) (tone : Bytes) (pos : ℕ) (p : Play)
    → start_tone env busy tone pos none ≡ (0, some p)
    → (hs : List Happening) → happens hs (some p) ≢ none
unfolding start_tone Endless
start_tone-endless env busy tone pos p e hs gone =
    let begun : Play = record {
      tone = tone;
      pos = pos;
      tmr = polling;
      delay = 1000;
      repeat = none;
      eof = false;
    } in
    let same : begun ≡ p = ground (arith, e) in
    let on = happens-Endless hs (some begun) (refl, ground arith) in
    subst Endless (ap (λ p. happens hs (some p)) same ∙ gone) on
