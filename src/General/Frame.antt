-- ===== src/General/Frame.antt =====
-- What the packets of a frame are (jni/baresip/modules/avcodec/avcodec.c, general_packetize).
use bare_sip_android.Prelude.{
  ℕ, zero, suc, ◌%◌, ◌<◌, ◌≤◌, ◌≡◌, inl, inr, refl, ap, ◌∙◌, sym, subst, append-nil, ◌-◌, Bool,
  true, false, not, Option, some, List, [], ◌∷◌, ◌++◌, ltb, ◌==◌, if◌then◌else◌, Bytes, length,
  take, drop, mbuf_write_room, take-append-drop, length-drop, length-take, take-length, drop-length,
  arith, Bool-cases,
}
use bare_sip_android.General.Packets.{
  max_rtp_size, Packet, Sent, prepend, packetize_loop, general_packetize,
}

-- The payloads one behind the other.
abbrev pub joined : List Packet → Bytes
joined [] = []
joined (p ∷ ps) = p.payload ++ joined ps

-- Only the last packet can have the marker flag, and has it exactly if `marked`, so that there is
-- one if `marked`; no packet is empty or longer than the limit.
abbrev pub Marked : Bool → List Packet → Type 0
Marked marked [] = marked ≡ false
Marked marked (p ∷ []) =
    (p.last ≡ marked) × (1 ≤ length p.payload) × (length p.payload ≤ max_rtp_size)
Marked marked (p ∷ q ∷ ps) =
    (p.last ≡ false)
    × (1 ≤ length p.payload)
    × (length p.payload ≤ max_rtp_size)
    × Marked marked (q ∷ ps)

-- All of a frame is sent, with no error.
abbrev pub SendsAll : Bytes → Option Sent → Type 0
SendsAll mb o =
    (s : Sent) × (o ≡ some s)
    × (s.err ≡ 0)
    × (joined s.packets ≡ mb)
    × Marked (not (length mb % max_rtp_size == 0)) s.packets

Marked-cons :
    (marked : Bool) (p : Packet) (ps : List Packet)
    → p.last ≡ false
    → 1 ≤ length p.payload
    → length p.payload ≤ max_rtp_size
    → Marked marked ps
    → Marked marked (p ∷ ps)
Marked-cons marked p [] e lo hi m = (e ∙ sym m, lo, hi)
Marked-cons marked p (q ∷ ps) e lo hi m = (e, lo, hi, m)

-- one packet of the full size less
marked-drop :
    (n m : ℕ)
    → max_rtp_size ≤ n
    → m ≡ n - max_rtp_size
    → not (m % max_rtp_size == 0) ≡ not (n % max_rtp_size == 0)
marked-drop n m h e = ap (λ x. not (x == 0)) (omega (arith, h, e))

-- A packet in front.
abbrev Cut : Bytes → ℕ → Bool → Option Sent → Option Sent → Type 0
Cut mb n last o rest = o ≡ prepend (record { last = last; payload = take n mb }) rest

Cut-last :
    (mb : Bytes) (o rest : Option Sent)
    → 1 ≤ length mb
    → length mb < max_rtp_size
    → rest ≡ some (record { packets = []; err = 0 })
    → Cut mb (length mb) true o rest
    → SendsAll mb o
Cut-last mb o rest lo hi e c =
    let p : Packet = record { last = true; payload = mb } in
    let marked : not (length mb % max_rtp_size == 0) ≡ true = ground arith in
    (
      record { packets = p ∷ []; err = 0 },
      c
          ∙ ap (prepend _) e
          ∙ ap
              (λ x. some (record { packets = (record { last = true; payload = x }) ∷ []; err = 0 }))
              (take-length mb),
      refl,
      append-nil mb,
      (sym marked, lo, omega (arith, hi)),
    )

Cut-more :
    (mb : Bytes) (o rest : Option Sent)
    → max_rtp_size ≤ length mb
    → SendsAll (drop max_rtp_size mb) rest
    → Cut mb max_rtp_size false o rest
    → SendsAll mb o
Cut-more mb o rest long (s, e, ok, j, m) c =
    let l : length (take max_rtp_size mb) ≡ max_rtp_size = length-take max_rtp_size mb long in
    let same = marked-drop (length mb) _ long (length-drop max_rtp_size mb) in
    (
      record s { packets = (record { last = false; payload = take max_rtp_size mb }) ∷ s.packets },
      c ∙ ap (prepend _) e,
      ok,
      ap (λ x. take max_rtp_size mb ++ x) j ∙ take-append-drop max_rtp_size mb,
      Marked-cons _ _ s.packets refl (omega (arith, l)) (omega (arith, l))
          (subst (λ b. Marked b s.packets) same m),
    )

module _ (room : ℕ → Bool) (sendh : Bool → Bytes → ℕ) (memory : (n : ℕ) → room n ≡ true)
    (calm : (last : Bool) (b : Bytes) → sendh last b ≡ 0) where
  packetize_loop-step :
      (fuel n : ℕ) (last : Bool) (mb : Bytes)
      → 1 ≤ length mb
      → ltb (length mb) max_rtp_size ≡ last
      → (if last then length mb else max_rtp_size) ≡ n
      → Cut mb n last
          (packetize_loop room sendh (suc fuel) mb)
          (packetize_loop room sendh fuel (drop n mb))
  unfolding packetize_loop
  packetize_loop-step fuel n last mb some_left l m =
      ground (arith, mbuf_write_room room [] (take n mb) memory, calm last (take n mb))

  packetize_loop-nil :
      (fuel : ℕ)
      → 0 < fuel
      → packetize_loop room sendh fuel [] ≡ some (record { packets = []; err = 0 })
  unfolding packetize_loop
  packetize_loop-nil zero lt = elim lt [ ]
  packetize_loop-nil (suc fuel) lt = refl

  packetize_loop-SendsAll :
      (fuel : ℕ) (mb : Bytes) → length mb < fuel → SendsAll mb (packetize_loop room sendh fuel mb)
  unfolding packetize_loop
  packetize_loop-SendsAll zero mb lt = absurd (omega (arith, lt))
  packetize_loop-SendsAll (suc fuel) [] lt =
      (record { packets = []; err = 0 }, refl, refl, refl, refl)
  packetize_loop-SendsAll (suc fuel) (b ∷ mb) lt =
      elim (Bool-cases (ltb (length (b ∷ mb)) max_rtp_size)) [
        | inl short ↦
            let none_left = drop-length (b ∷ mb) in
            Cut-last (b ∷ mb) _ (packetize_loop room sendh fuel (drop (length (b ∷ mb)) (b ∷ mb)))
              (omega arith) (ground arith)
              (rw none_left (packetize_loop-nil fuel (omega (arith, lt))))
              (packetize_loop-step fuel _ true (b ∷ mb) (omega arith) short refl)
        | inr long ↦
            let full : max_rtp_size ≤ length (b ∷ mb) = ground arith in
            Cut-more (b ∷ mb) _ _ full
              (packetize_loop-SendsAll fuel (drop max_rtp_size (b ∷ mb))
                (omega (arith, lt, full, length-drop max_rtp_size (b ∷ mb))))
              (packetize_loop-step fuel max_rtp_size false (b ∷ mb) (omega arith) long refl)
      ]

-- With memory, and where the send handler reports no error: a frame is sent whole, with no error,
-- in packets of at most 1024 bytes, none of them empty. Only the last one can have the marker flag,
-- and it has it exactly if the size of the frame is no multiple of 1024 bytes.
pub general_packetize-SendsAll :
    (room : ℕ → Bool) (sendh : Bool → Bytes → ℕ) (mb : Bytes)
    → ((n : ℕ) → room n ≡ true)
    → ((last : Bool) (b : Bytes) → sendh last b ≡ 0)
    → SendsAll mb (general_packetize room sendh mb)
unfolding general_packetize
general_packetize-SendsAll room sendh mb memory calm =
    packetize_loop-SendsAll room sendh memory calm (suc (length mb)) mb (omega arith)
