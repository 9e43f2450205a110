-- ===== src/Play/Left.antt =====
-- How far a tone is from its end, and that what happens brings it nearer (jni/baresip/src/play.c).
use bare_sip_android.Prelude.{
  ℕ, zero, suc, ◌+◌, ◌*◌, ◌-◌, ◌≤◌, ◌<◌, ◌≡◌, refl, ap, subst, sym, Bool, true, false, Option, none,
  some, length, arith, ◌==◌, if◌then◌else◌, Bool-cases, not, ◌⊎◌, inl, inr,
}
use bare_sip_android.Play.Player.{
  Timer, polling, repeating, stopping, Play, mbuf_left, Happening, frame, expire, happen,
  tmr_polling, run_timer, tmr_repeat, write_handler,
}

abbrev pub repeats : Option ℕ → ℕ
repeats none = 0
repeats (some n) = n

-- the times that the tone is still to be played, this one included
abbrev pub times : Play → ℕ
times p = if repeats p.repeat == 0 then 1 else repeats p.repeat

-- more than what happens while the tone is played once
abbrev pub cycle : Play → ℕ
cycle p = length p.tone + 4

abbrev pub left_in : Timer → Play → ℕ
left_in stopping p = 1
left_in repeating p = times p * cycle p
left_in polling p = (if p.eof then 2 else mbuf_left p + 3) + (times p - 1) * cycle p

abbrev pub left : Option Play → ℕ
left none = 0
left (some p) = left_in p.tmr p

-- A player whose tone is not over waits for a frame of some bytes, any other for its timer.
abbrev pub waits_frame : Play → Bool
waits_frame p = elim p.tmr [ polling ↦ not p.eof | _ ↦ false ]

abbrev pub Wanted : Happening → Bool → Type 0
Wanted (frame sz) w = (w ≡ true) × (0 < sz)
Wanted expire w = w ≡ false

abbrev pub Counted : Play → Type 0
Counted p = (n : ℕ) × (p.repeat ≡ some n)

-- What was wanted brings the end nearer; what was not leaves the same wanted.
pub record Waiting (p q : Play) : Type 0 where
  pub same_wait : waits_frame q ≡ waits_frame p
  pub same_left : left (some q) ≤ left (some p)
  pub same_count : q.repeat ≡ p.repeat

frame_step :
    (sz : ℕ) (p : Play) (t : Timer)
    → p.tmr ≡ t
    → (left (some (write_handler sz p).1) < left (some p))
      ⊎ (Waiting p (write_handler sz p).1 × ((waits_frame p ≡ false) ⊎ (sz ≡ 0)))
unfolding write_handler
frame_step sz p polling e = ground (arith, e)
frame_step sz p repeating e = ground (arith, e)
frame_step sz p stopping e = ground (arith, e)

one_more : (t c : ℕ) → 0 < t → t * c ≡ c + (t - 1) * c
one_more zero c h = absurd (omega arith)
one_more (suc t) c h = grind arith

pub again : (p : Play) → times p * cycle p ≡ cycle p + (times p - 1) * cycle p
again p = one_more (times p) (cycle p) (ground arith)

repeat_step : (p : Play) → p.tmr ≡ repeating → left (some (tmr_repeat p)) < left (some p)
unfolding tmr_repeat
repeat_step p e = ground (arith, again p, e)

polling_step :
    (p : Play)
    → Counted p
    → p.tmr ≡ polling
    → p.eof ≡ true
    → left (some (tmr_polling p)) < left (some p)
unfolding tmr_polling
polling_step p (n, c) e f = ground (arith, c, e, f)

polling_again : (p : Play) → p.tmr ≡ polling → p.eof ≡ false → Waiting p (tmr_polling p)
unfolding tmr_polling
polling_again p e f = ground (arith, e, f)

-- What happens brings the end nearer, or was not what the player waits for.
abbrev pub Outcome : Happening → Play → Type 0
Outcome h p =
    (left (happen h (some p)) < left (some p))
    ⊎ ((q : Play) × ((happen h (some p) ≡ some q) × (Waiting p q × ¬ Wanted h (waits_frame p))))

expire_at : (p : Play) (t : Timer) → p.tmr ≡ t → happen expire (some p) ≡ run_timer t p
unfolding happen
expire_at p t e = ap (λ t. run_timer t p) e

nearer :
    (h : Happening) (p : Play) (o : Option Play)
    → happen h (some p) ≡ o
    → left o < left (some p)
    → Outcome h p
nearer h p o e d = inl (subst (λ o. left o < left (some p)) (sym e) d)

frame-Outcome : (sz : ℕ) (p : Play) → Outcome (frame sz) p
unfolding happen
frame-Outcome sz p = elim (frame_step sz p p.tmr refl) [
  | inl d ↦ inl d
  | inr (w, n) ↦ inr (_, (refl, (w, λ k. ground (arith, k, n))))
]

expire-Outcome : (p : Play) (t : Timer) → p.tmr ≡ t → Counted p → Outcome expire p
expire-Outcome p polling e c = elim (Bool-cases p.eof) [
  | inl f ↦ nearer expire p _ (expire_at p polling e) (polling_step p c e f)
  | inr f ↦ inr (_, (expire_at p polling e, (polling_again p e f, λ k. ground (arith, k, e, f))))
]
expire-Outcome p repeating e c = nearer expire p _ (expire_at p repeating e) (repeat_step p e)
expire-Outcome p stopping e c = nearer expire p _ (expire_at p stopping e) (ground (arith, e))

pub happen_step : (h : Happening) (p : Play) → Counted p → Outcome h p
happen_step (frame sz) p c = frame-Outcome sz p
happen_step expire p c = expire-Outcome p p.tmr refl c

abbrev pub CountedIn : Option Play → Type 0
CountedIn none = Unit
CountedIn (some p) = Counted p

polling-Counted : (p : Play) → Counted p → Counted (tmr_polling p)
unfolding tmr_polling
polling-Counted p (n, c) = elim (Bool-cases p.eof) [
  | inl e ↦ (n - 1, ground (arith, c, e))
  | inr e ↦ (n, ground (arith, c, e))
]

timer-CountedIn : (t : Timer) (p : Play) → Counted p → CountedIn (run_timer t p)
unfolding tmr_repeat
timer-CountedIn polling p c = polling-Counted p c
timer-CountedIn repeating p c = c
timer-CountedIn stopping p c = tt

pub happen-CountedIn : (h : Happening) (o : Option Play) → CountedIn o → CountedIn (happen h o)
unfolding happen write_handler
happen-CountedIn h none c = tt
happen-CountedIn (frame sz) (some p) (n, c) = (n, ground (arith, c))
happen-CountedIn expire (some p) c = timer-CountedIn p.tmr p c
