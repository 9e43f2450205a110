-- ===== src/Uag/Registered.antt =====
-- When user agents are registered (jni/baresip/src/ua.c).
use bare_sip_android.Prelude.{
  ℕ, zero, suc, ◌≤◌, ◌<◌, ◌≡◌, ◌↔◌, refl, ◌∙◌, Bool, true, false, Option, none, some, List, [], ◌∷◌,
  All, length, get_elem?, arith, ◌++◌, ap, sym, Bool-cases, inl, inr,
}
use bare_sip_android.Uag.State.{UaReg, RegUa}
use bare_sip_android.Uag.Register.{
  RegEnv, uareg_register, register_each, ua_register, is_ok, ua_regok, ua_nreg_get,
  ua_check_registrations, RegMsg, register_answer, set_at, register_handler,
}

-- A registration of the list has a code of success.
abbrev pub HasOk : List UaReg → Type 0
HasOk regl =
    (r : UaReg) × ((pre : List UaReg) × ((post : List UaReg) × ((regl ≡ pre ++ r ∷ post)
          × ((200 ≤ r.scode) × (r.scode ≤ 299)))))

later-HasOk : (r : UaReg) (regl : List UaReg) → HasOk regl → HasOk (r ∷ regl)
later-HasOk r regl (q, (pre, (post, (e, ok)))) = (q, (r ∷ pre, (post, (ap (◌∷◌ r) e, ok))))

regok-HasOk : (regl : List UaReg) → ua_regok regl ≡ true → HasOk regl
unfolding ua_regok
regok-HasOk [] e = ground (arith, e)
regok-HasOk (r ∷ regl) e = elim (Bool-cases (is_ok r.scode)) [
  | inl ok ↦ (r, ([], (regl, (refl, (ground (arith, ok), ground (arith, ok))))))
  | inr no_ok ↦ later-HasOk r regl (regok-HasOk regl (ground (arith, e, no_ok)))
]

among-regok :
    (pre post : List UaReg) (r : UaReg)
    → 200 ≤ r.scode
    → r.scode ≤ 299
    → ua_regok (pre ++ r ∷ post) ≡ true
unfolding ua_regok
among-regok [] post r lo hi = ground (arith, lo, hi)
among-regok (q ∷ pre) post r lo hi = ground (arith, among-regok pre post r lo hi)

HasOk-regok : (regl : List UaReg) → HasOk regl → ua_regok regl ≡ true
HasOk-regok regl (r, (pre, (post, (e, (lo, hi))))) = ap ua_regok e ∙ among-regok pre post r lo hi

nreg_le : (ual : List RegUa) → ua_nreg_get ual ≤ length ual
unfolding ua_nreg_get
nreg_le [] = omega arith
nreg_le (ua ∷ ual) = ground (arith, nreg_le ual)

nreg-All : (ual : List RegUa) → (ua_nreg_get ual ≡ length ual) ↔ All (λ ua. HasOk ua.regl) ual
unfolding ua_nreg_get
nreg-All [] = (λ e. tt, λ a. refl)
nreg-All (ua ∷ ual) =
    let (all, count) = nreg-All ual in
    (
      λ e. (
        regok-HasOk ua.regl (ground (arith, nreg_le ual, e)),
        all (ground (arith, nreg_le ual, e)),
      ),
      λ (o, a). ground (arith, count a, HasOk-regok ua.regl o),
    )

-- The user agents that were not yet announced to be registered are announced if and only if each of
-- them has a registration whose code is from 200 to 299.
pub ua_check_registrations_lem :
    (ual : List RegUa) → (ua_check_registrations ual false ≡ true) ↔ All (λ ua. HasOk ua.regl) ual
unfolding ua_check_registrations
ua_check_registrations_lem ual =
    let (all, count) = nreg-All ual in
    (λ e. all (ground (arith, nreg_le ual, e)), λ a. ground (arith, count a))

-- a registration that was asked for anew
Asked : UaReg → Type 0
Asked r = (r.scode ≡ 0) × (r.reg ≡ true)

register_each-Asked :
    (env : RegEnv) (outbound : List Bool) (regl : List UaReg)
    → (register_each env outbound regl).0 ≡ 0
    → All Asked (register_each env outbound regl).1
unfolding register_each uareg_register Asked
register_each-Asked env outbound [] e = tt
register_each-Asked env outbound (r ∷ regl) e =
    ground (arith, e, register_each-Asked env outbound regl)

Asked-regok : (regl : List UaReg) → All Asked regl → ua_regok regl ≡ false
unfolding ua_regok Asked
Asked-regok [] a = refl
Asked-regok (r ∷ regl) ((z, on), a) = ground (arith, z, Asked-regok regl a)

answered-regok :
    (n : ℕ) (r : UaReg) (regl : List UaReg)
    → n < length regl
    → All Asked regl
    → ua_regok (set_at n r regl) ≡ is_ok r.scode
unfolding ua_regok Asked
answered-regok n r [] h a = absurd (omega (arith, h))
answered-regok zero r (r' ∷ regl) h (q, a) = ground (arith, Asked-regok regl a)
answered-regok (suc n) r (r' ∷ regl) h ((z, on), a) =
    ground (arith, z, answered-regok n r regl (omega arith) a)

abbrev answer_ok : Option RegMsg → Bool
answer_ok none = false
answer_ok (some msg) = is_ok msg.scode

nth :
    (n : ℕ) (regl : List UaReg)
    → n < length regl
    → All Asked regl
    → (r : UaReg) × ((get_elem? regl n ≡ some r) × Asked r)
nth n [] h a = absurd (omega (arith, h))
nth zero (r ∷ regl) h (q, a) = (r, (refl, q))
nth (suc n) (r ∷ regl) h (q, a) = nth n regl (omega (arith, h)) a

-- what an answer makes of a registration that was asked for
answer-ok :
    (msg : RegMsg) (r : UaReg) (ua : RegUa)
    → Asked r
    → is_ok (register_answer msg r ua).0.scode ≡ is_ok msg.scode
unfolding Asked register_answer
answer-ok msg r ua (z, on) = ground (arith, z)

handled-regok :
    (n : ℕ) (msg : Option RegMsg) (ua : RegUa)
    → n < length ua.regl
    → All Asked ua.regl
    → ua_regok (register_handler n msg ua).regl ≡ answer_ok msg
unfolding register_handler
handled-regok n none ua h a =
    let (r, (e, q)) = nth n ua.regl h a in
    rw e (answered-regok n (record r { scode = 999 }) ua.regl h a)
handled-regok n (some msg) ua h a =
    let (r, (e, q)) = nth n ua.regl h a in
    rw e (answered-regok n (register_answer msg r ua).0 ua.regl h a ∙ answer-ok msg r ua q)

-- an answer whose code is one of success
abbrev pub Success : Option RegMsg → Type 0
Success msg = (m : RegMsg) × ((msg ≡ some m) × ((200 ≤ m.scode) × (m.scode ≤ 299)))

answer-Success : (msg : Option RegMsg) → (answer_ok msg ≡ true) ↔ Success msg
answer-Success none = (λ e. ground (arith, e), λ h. cc)
answer-Success (some m) = (
  λ e. (m, (refl, (ground (arith, e), ground (arith, e)))),
  λ (m', (same, (lo, hi))). ap answer_ok same ∙ ground (arith, lo, hi),
)

handled-Success :
    (n : ℕ) (msg : Option RegMsg) (ua : RegUa)
    → n < length ua.regl
    → All Asked ua.regl
    → (ua_regok (register_handler n msg ua).regl ≡ true) ↔ Success msg
handled-Success n msg ua h a =
    let e = handled-regok n msg ua h a in
    let (ok, back) = answer-Success msg in (λ t. ok (sym e ∙ t), λ s. e ∙ back s)

-- A user agent whose requests to register were all started is not registered; and the first answer
-- to one of them makes it registered if and only if it is no error and its code is from 200 to 299.
pub ua_register-regok :
    (env : RegEnv) (ua : RegUa) (n : ℕ) (msg : Option RegMsg)
    → env.printed ≡ true
    → (ua_register env ua).0 ≡ 0
    → n < length (ua_register env ua).1.regl
    → (ua_regok (ua_register env ua).1.regl ≡ false)
      × ((ua_regok (register_handler n msg (ua_register env ua).1).regl ≡ true) ↔ Success msg)
unfolding ua_register
ua_register-regok env ua n msg p e h =
    let asked : All Asked (register_each env ua.outbound ua.regl).1 =
      register_each-Asked env ua.outbound ua.regl (ground (arith, p, e)) in
    rw p (Asked-regok _ asked, handled-Success n msg _ (rw p at (h)) asked)
