-- ===== src/Uag/Focus.antt =====
-- The user agent in focus (jni/baresip/src/ua.c, ua_cur and ua_next), by its place in the list.
use bare_sip_android.Prelude.{
  ℕ, zero, suc, ◌+◌, ◌-◌, ◌<◌, ◌≡◌, refl, Option, none, some, ltb, ◌==◌, if◌then◌else◌, arith,
}

-- of `n` user agents; without one set it is the first
unfoldable pub ua_cur : ℕ → Option ℕ → Option ℕ
ua_cur n none = if n == 0 then none else some 0
ua_cur n (some i) = some i

abbrev next_of : ℕ → Option ℕ → Option ℕ → Option ℕ
next_of n cur none = cur
next_of n cur (some i) = some (if ltb (i + 1) n then i + 1 else 0)

unfoldable pub ua_next : ℕ → Option ℕ → Option ℕ
unfolding ua_cur
ua_next n cur = next_of n cur (ua_cur n cur)

unfoldable pub ua_nexts : ℕ → ℕ → Option ℕ → Option ℕ
ua_nexts zero n cur = cur
ua_nexts (suc k) n cur = ua_nexts k n (ua_next n cur)

-- a step of at most the way to the next user agent that is asked for
abbrev pub way : ℕ → ℕ → ℕ → ℕ
way n i j = if ltb j i then n - i + j else j - i

next_way :
    (n i j : ℕ)
    → i < n
    → j < n
    → 0 < way n i j
    → suc (way n (if ltb (i + 1) n then i + 1 else 0) j) ≡ way n i j
next_way n i j h k p = ground arith

nexts_reach : (k n i j : ℕ) → i < n → j < n → way n i j ≡ k → ua_nexts k n (some i) ≡ some j
unfolding ua_nexts ua_next ua_cur
nexts_reach zero n i j h k e = ground (arith, e)
nexts_reach (suc m) n i j h k e =
    nexts_reach m n (if ltb (i + 1) n then i + 1 else 0) j (ground arith) k
      (omega (arith, e, next_way n i j h k (omega (arith, e))))

comes_back : (n i : ℕ) → i < n → ua_nexts n n (some i) ≡ some i
unfolding ua_nexts ua_next ua_cur
comes_back zero i h = absurd (omega arith)
comes_back (suc m) i h =
    nexts_reach m (suc m) (if ltb (i + 1) (suc m) then i + 1 else 0) i (ground arith) h
      (ground arith)

-- From any user agent in focus, every user agent of the list comes into focus after less steps of
-- ua_next than there are user agents; and with as many steps as there are, the one that was in
-- focus comes back.
pub ua_next-reaches :
    (n i j : ℕ)
    → i < n
    → j < n
    → ((k : ℕ) × ((k < n) × (ua_cur n (ua_nexts k n (some i)) ≡ some j)))
      × (ua_nexts n n (some i) ≡ some i)
unfolding ua_cur
ua_next-reaches n i j h k = (
  (way n i j, (ground arith, rw (nexts_reach (way n i j) n i j h k refl) refl)),
  comes_back n i h,
)
