-- ===== src/Stream/Tracker.antt =====
-- What the sequence numbers of a stream stand for (jni/baresip/src/stream.c, lostcalc): the sender
-- counts its packets without a bound, and a packet carries the lowest 16 bits of its number.
use bare_sip_android.Prelude.{
  ℕ, suc, ◌+◌, ◌-◌, ◌%◌, ◌^◌, ◌≤◌, ◌<◌, ◌≡◌, refl, List, [], ◌∷◌, map, ltb, ◌==◌, if◌then◌else◌,
  arith, dec_lt,
}
use bare_sip_android.Stream.Lost.{
  Lostc, lost, duplicate, late, lostcalc, lostcalcs, no_seq, seq_delta,
}

abbrev pub wire : ℕ → ℕ
wire n = n % 2 ^ 16

-- with the newest number so far
unfoldable pub track : ℕ → ℕ → Lostc × ℕ
track newest n =
    if ltb newest n
    then (lost (n - newest - 1), n)
    else if n == newest
    then (duplicate, newest)
    else (late, newest)

unfoldable pub tracks : ℕ → List ℕ → List Lostc × ℕ
unfolding track
tracks newest [] = ([], newest)
tracks newest (n ∷ ns) =
    let (l, newest') = track newest n in let (ls, end) = tracks newest' ns in (l ∷ ls, end)

-- A packet is less than 3000 packets ahead of the newest, and at most 100 behind.
abbrev pub Near : ℕ → ℕ → Type 0
Near newest n = (n < newest + 3000) × (newest ≤ n + 100)

unfoldable pub NearAll : ℕ → List ℕ → Type 0
unfolding track
NearAll newest [] = Unit
NearAll newest (n ∷ ns) = Near newest n × NearAll (track newest n).1 ns

delta_ahead :
    (newest n : ℕ) → newest ≤ n → n < newest + 3000 → seq_delta (wire n) (wire newest) ≡ n - newest
delta_ahead newest n h k = omega (arith, h, k)

delta_behind :
    (newest n : ℕ)
    → n < newest
    → newest ≤ n + 100
    → seq_delta (wire n) (wire newest) ≡ 2 ^ 16 - (newest - n)
delta_behind newest n h k = omega (arith, h, k)

ahead :
    (newest n : ℕ)
    → newest ≤ n
    → n < newest + 3000
    → lostcalc (wire newest) (wire n) ≡ ((track newest n).0, wire (track newest n).1)
unfolding lostcalc track
ahead newest n h k = ground (arith, delta_ahead newest n h k)

behind :
    (newest n : ℕ)
    → n < newest
    → newest ≤ n + 100
    → lostcalc (wire newest) (wire n) ≡ ((track newest n).0, wire (track newest n).1)
unfolding lostcalc track
behind newest n h k = ground (arith, delta_behind newest n h k)

pub lostcalc-track :
    (newest n : ℕ)
    → Near newest n
    → lostcalc (wire newest) (wire n) ≡ ((track newest n).0, wire (track newest n).1)
lostcalc-track newest n (h, k) = elim (dec_lt n newest) [
  | yes b ↦ behind newest n b k
  | no a ↦ ahead newest n (omega (arith, a)) h
]

-- what the 16 bits tell is what the sender's own numbers tell
lostcalcs-tracks :
    (newest : ℕ) (ns : List ℕ)
    → NearAll newest ns
    → lostcalcs (wire newest) (map wire ns) ≡ ((tracks newest ns).0, wire (tracks newest ns).1)
unfolding lostcalcs tracks NearAll
lostcalcs-tracks newest [] h = refl
lostcalcs-tracks newest (n ∷ ns) (h, hs) =
    rw (lostcalc-track newest n h, lostcalcs-tracks (track newest n).1 ns hs) refl

abbrev pub lost_count : List Lostc → ℕ
lost_count [] = 0
lost_count (lost k ∷ ls) = k + lost_count ls
lost_count (_ ∷ ls) = lost_count ls

abbrev pub fresh_count : List Lostc → ℕ
fresh_count [] = 0
fresh_count (lost k ∷ ls) = suc (fresh_count ls)
fresh_count (_ ∷ ls) = fresh_count ls

tracks-span :
    (newest : ℕ) (ns : List ℕ)
    → newest + lost_count (tracks newest ns).0 + fresh_count (tracks newest ns).0
      ≡ (tracks newest ns).1
unfolding tracks track
tracks-span newest [] = omega arith
tracks-span newest (n ∷ ns) = ground (arith, tracks-span (track newest n).1 ns)

-- The tracker's result in the form of lostcalc's, from the first packet on.
abbrev pub tracked : ℕ → List ℕ → List Lostc × ℕ
tracked first ns = (lost 0 ∷ (tracks first ns).0, wire (tracks first ns).1)

-- For any packets of which each is near enough to the newest before it, from the first that a
-- stream receives: lostcalc finds by 16 bits, wrapping around, exactly the losses, duplicates and
-- late packets that the sender's unbounded numbers tell, and keeps the lowest 16 bits of the newest
-- number; and the new packets with those reported lost are as many as the sender counted from the
-- first to the newest.
pub lostcalcs-refine :
    (first : ℕ) (ns : List ℕ)
    → NearAll first ns
    → (lostcalcs no_seq (map wire (first ∷ ns)) ≡ tracked first ns)
      × (first + lost_count (tracks first ns).0 + fresh_count (tracks first ns).0
          ≡ (tracks first ns).1)
unfolding lostcalcs lostcalc
lostcalcs-refine first ns h = (rw (lostcalcs-tracks first ns h) refl, tracks-span first ns)
