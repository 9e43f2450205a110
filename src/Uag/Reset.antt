-- ===== src/Uag/Reset.antt =====
-- A change of the network's addresses (jni/baresip/src/ua.c, ua_reset_transp, ua_stack_suspend).
use bare_sip_android.Prelude.{ℕ, Bool, List, [], ◌∷◌, map, ◌==◌, if◌then◌else◌, bit_or}
use bare_sip_android.Call.State.{Call, Env}
use bare_sip_android.Call.Control.{call_reset_transp}
use bare_sip_android.Uag.State.{RegUa}
use bare_sip_android.Uag.Register.{RegEnv, ua_register, ua_unregister}

-- a user agent with its calls
abbrev pub UaCalls : Type 0
UaCalls = RegUa × List Call

unfoldable pub reset_calls : Env → List Call → ℕ × List Call
reset_calls env [] = (0, [])
reset_calls env (c ∷ calls) =
    let (err, c') = call_reset_transp env c in
    let (err', calls') = reset_calls env calls in (bit_or err err', c' ∷ calls')

unfoldable pub reset_ua : RegEnv → Env → Bool → Bool → UaCalls → ℕ × UaCalls
unfolding reset_calls
reset_ua renv env reg reinvite (ua, calls) =
    let (err, ua') = if reg then ua_register renv ua else (0, ua) in
    let (err', calls') = if reinvite then reset_calls env calls else (0, calls) in
    (bit_or err err', (ua', calls'))

unfoldable pub reset_each : RegEnv → Env → Bool → Bool → List UaCalls → ℕ × List UaCalls
unfolding reset_ua
reset_each renv env reg reinvite [] = (0, [])
reset_each renv env reg reinvite (u ∷ ual) =
    let (err, u') = reset_ua renv env reg reinvite u in
    let (err', ual') = reset_each renv env reg reinvite ual in (bit_or err err', u' ∷ ual')

-- `add_err` is the error of adding the new addresses.
unfoldable pub ua_reset_transp : RegEnv → Env → ℕ → Bool → Bool → List UaCalls → ℕ × List UaCalls
unfolding reset_each
ua_reset_transp renv env add_err reg reinvite ual =
    if add_err == 0 then reset_each renv env reg reinvite ual else (add_err, ual)

unfoldable pub ua_stack_suspend : List RegUa → List RegUa
unfolding ua_unregister
ua_stack_suspend ual = map ua_unregister ual
