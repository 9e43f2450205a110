-- ===== src/Stream/Lost.antt =====
-- How a stream finds lost packets by their 16-bit sequence numbers (jni/baresip/src/stream.c,
-- lostcalc).
use bare_sip_android.Prelude.{ℕ, ◌+◌, ◌-◌, ◌%◌, ◌^◌, List, [], ◌∷◌, ltb, ◌==◌, if◌then◌else◌}

-- the result of lostcalc: a number of lost packets, -1 or -2
pub data Lostc : Type 0 where
  lost : ℕ → Lostc
  duplicate late : Lostc

-- `(uint32_t)-1`
abbrev pub no_seq : ℕ
no_seq = 2 ^ 32 - 1

-- `const uint16_t delta = seq - s->pseq`
abbrev pub seq_delta : ℕ → ℕ → ℕ
seq_delta seq pseq = (seq + 2 ^ 32 - pseq) % 2 ^ 16

-- the result, and `s->pseq` after it
unfoldable pub lostcalc : ℕ → ℕ → Lostc × ℕ
lostcalc pseq seq =
    let delta = seq_delta seq pseq in
    if pseq == no_seq
    then (lost 0, seq)
    else if delta == 0
    then (duplicate, pseq)
    else if ltb delta 3000
    then (lost (delta - 1), seq)
    else if ltb delta 65436
    then (lost 0, seq)
    else (late, pseq)

-- one packet after the other
unfoldable pub lostcalcs : ℕ → List ℕ → List Lostc × ℕ
unfolding lostcalc
lostcalcs pseq [] = ([], pseq)
lostcalcs pseq (seq ∷ seqs) =
    let (l, pseq') = lostcalc pseq seq in let (ls, end) = lostcalcs pseq' seqs in (l ∷ ls, end)
