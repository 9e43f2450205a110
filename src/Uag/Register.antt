-- ===== src/Uag/Register.antt =====
-- The registration of user agents (jni/baresip/src/ua.c). The printing of the address and the
-- parameters, and the register clients, are the library's.
use bare_sip_android.Prelude.{
  ℕ, zero, suc, ◌-◌, Bool, true, false, not, ◌&&◌, Option, none, some, List, [], ◌∷◌, length,
  get_elem?, ltb, leb, ◌==◌, bit_or, if◌then◌else◌, Bytes, enomem, map,
}
use bare_sip_android.Uag.State.{UaReg, RegEvent, registering, register_ok, register_fail, RegUa}

-- `sipreg` is the error of sipreg_register by the registration's id and whether it goes by a proxy.
pub record RegEnv : Type 0 where
  pub printed : Bool
  pub sipreg : ℕ → Bool → ℕ

-- ARRAY_SIZE(prm->outbound)
abbrev pub n_outbound : ℕ
n_outbound = 2

abbrev is_set : Option Bool → Bool
is_set none = false
is_set (some b) = b

abbrev pub has_route : List Bool → UaReg → Bool
has_route outbound r =
    not (r.id == 0) && (ltb (r.id - 1) n_outbound && is_set (get_elem? outbound (r.id - 1)))

unfoldable pub uareg_register : RegEnv → List Bool → UaReg → ℕ × UaReg
uareg_register env outbound r =
    let err = env.sipreg r.id (has_route outbound r) in
    (err, record r { scode = 0; reg = err == 0 })

-- up to the first that fails
unfoldable pub register_each : RegEnv → List Bool → List UaReg → ℕ × List UaReg
unfolding uareg_register
register_each env outbound [] = (0, [])
register_each env outbound (r ∷ regl) =
    let (err, r') = uareg_register env outbound r in
    let (err', regl') = register_each env outbound regl in
    if err == 0 then (err', r' ∷ regl') else (err, r' ∷ regl)

abbrev pub ua_event : RegEvent → RegUa → RegUa
ua_event ev ua = record ua { events = ev ∷ ua.events }

unfoldable pub ua_register : RegEnv → RegUa → ℕ × RegUa
unfolding register_each
ua_register env ua =
    if not env.printed
    then (enomem, ua)
    else let (err, regl) = register_each env ua.outbound ua.regl in
      (err, record (ua_event registering ua) { regl = regl })

abbrev pub is_ok : ℕ → Bool
is_ok scode = leb 200 scode && leb scode 299

unfoldable pub ua_regok : List UaReg → Bool
ua_regok [] = false
ua_regok (r ∷ regl) = if is_ok r.scode then true else ua_regok regl

unfoldable pub ua_nreg_get : List RegUa → ℕ
ua_nreg_get [] = 0
ua_nreg_get (ua ∷ ual) = if ua_regok ua.regl then suc (ua_nreg_get ual) else ua_nreg_get ual

-- `ual_ready` after it; all the user agents are announced to be registered when it becomes true.
unfoldable pub ua_check_registrations : List RegUa → Bool → Bool
ua_check_registrations ual ready =
    if ready then true else if ltb (ua_nreg_get ual) (length ual) then false else true

-- what is read of a response: its code, the server's name, the bindings, and the socket with its
-- family
pub record RegMsg : Type 0 where
  pub scode : ℕ
  pub server : Option Bytes
  pub contacts : ℕ
  pub fd : Option ℕ
  pub msg_af : ℕ

abbrev named : RegMsg → UaReg → UaReg
named msg r = elim msg.server [ none ↦ r | some s ↦ record r { srv = some s } ]

-- the registration and its user agent without the list
unfoldable pub register_answer : RegMsg → UaReg → RegUa → UaReg × RegUa
register_answer msg r ua =
    if is_ok msg.scode
    then (
      record (named msg r) { scode = msg.scode; sipfd = msg.fd },
      ua_event register_ok (record ua { n_bindings = msg.contacts; af = msg.msg_af }),
    )
    else if leb 300 msg.scode
    then (record (named msg r) { scode = msg.scode; sipfd = none }, ua_event register_fail ua)
    else (named msg r, ua)

abbrev pub set_at : ℕ → UaReg → List UaReg → List UaReg
set_at n r [] = []
set_at zero r (r' ∷ regl) = r ∷ regl
set_at (suc n) r (r' ∷ regl) = r' ∷ set_at n r regl

abbrev handle_at : ℕ → Option RegMsg → RegUa → Option UaReg → RegUa
handle_at n msg ua none = ua
handle_at n none ua (some r) =
    ua_event register_fail (record ua { regl = set_at n (record r { scode = 999 }) ua.regl })
handle_at n (some msg) ua (some r) =
    let (r', ua') = register_answer msg r ua in record ua' { regl = set_at n r' ua.regl }

-- the answer to the `n`th registration of a user agent, where `none` is an error
unfoldable pub register_handler : ℕ → Option RegMsg → RegUa → RegUa
unfolding register_answer
register_handler n msg ua = handle_at n msg ua (get_elem? ua.regl n)

abbrev unregister_one : UaReg → UaReg
unregister_one r = record r { reg = false }

-- for each registration
unfoldable pub ua_unregister : RegUa → RegUa
ua_unregister ua = record ua { regl = map unregister_one ua.regl }

unfoldable pub ua_start : RegEnv → RegUa → ℕ × RegUa
unfolding ua_register
ua_start env ua = if ua.regint == 0 then (0, ua) else ua_register env ua

-- `err |= ua_start(ua)` for each
unfoldable pub ua_start_all : RegEnv → List RegUa → ℕ × List RegUa
unfolding ua_start
ua_start_all env [] = (0, [])
ua_start_all env (ua ∷ ual) =
    let (err, ua') = ua_start env ua in
    let (err', ual') = ua_start_all env ual in (bit_or err err', ua' ∷ ual')
