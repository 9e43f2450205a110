-- ===== src/Uag/Stack.antt =====
-- The SIP stack of the user agents (jni/baresip/src/ua.c, from add_transp_af to ua_setup_transp,
-- ua_init, ua_close, ua_stack_resume, ua_stop_all). Each stack that is made has a number of its own.
-- TLS is compiled in.
use bare_sip_android.Prelude.{
  ℕ, suc, ◌+◌, ◌%◌, ◌^◌, Bool, true, false, not, Option, none, some, List, [], ◌∷◌, ◌==◌, bit_or,
  if◌then◌else◌,
}
use bare_sip_android.Uag.State.{RegUa}
use bare_sip_android.Uag.Register.{RegEnv, ua_start_all}

pub data Transp : Type 0 where
  udp tcp tls : Transp

pub record Sa : Type 0 where
  pub af : ℕ
  pub port : ℕ

-- `sock` listens for sessions, `lsnr` for other requests, `evsock` for events, each on the stack of a
-- number; `cmds` tells that the commands of the application are registered.
pub record Stack : Type 0 where
  pub sip : Option ℕ
  pub lsnr : Option ℕ
  pub sock : Option ℕ
  pub evsock : Option ℕ
  pub tls_made : Bool
  pub use_udp : Bool
  pub use_tcp : Bool
  pub use_tls : Bool
  pub prefer_ipv6 : Bool
  pub cmds : Bool
  pub transps : List (Transp × Sa)
  pub made : ℕ

-- `local` is the configured address, where there is one, as it is decoded, or an error; `laddr4` and
-- `laddr6` are the network's addresses; the others are errors of the libraries.
pub record StackEnv : Type 0 where
  pub local_set : Bool
  pub local : Option Sa
  pub local_err : ℕ
  pub laddr4 : Option Sa
  pub laddr6 : Option Sa
  pub transp_err : Transp → Sa → ℕ
  pub tls_err : ℕ
  pub net_err : ℕ
  pub sip_err : ℕ
  pub lsnr_err : ℕ
  pub sock_err : ℕ
  pub ev_err : ℕ
  pub cmd_err : ℕ

unfoldable pub sip_transp_add : StackEnv → Transp → Sa → Stack → ℕ × Stack
sip_transp_add env t sa st =
    if env.transp_err t sa == 0
    then (0, record st { transps = (t, sa) ∷ st.transps })
    else (env.transp_err t sa, st)

abbrev pub add_if : StackEnv → Bool → Transp → Sa → Stack → ℕ × Stack
add_if env wanted t sa st = if wanted then sip_transp_add env t sa st else (0, st)

abbrev pub next_port : Sa → Sa
next_port sa = if sa.port == 0 then sa else record sa { port = (sa.port + 1) % 2 ^ 16 }

abbrev pub add_tls : StackEnv → Sa → Stack → ℕ × Stack
add_tls env sa st =
    if st.tls_made
    then sip_transp_add env tls (next_port sa) st
    else if env.tls_err == 0
    then sip_transp_add env tls (next_port sa) (record st { tls_made = true })
    else (env.tls_err, st)

abbrev pub add_local : StackEnv → Sa → Stack → ℕ × Stack
add_local env sa st =
    let (e1, st1) = add_if env st.use_udp udp sa st in
    let (e2, st2) = add_if env st.use_tcp tcp sa st1 in
    let err = bit_or e1 e2 in
    if not (err == 0) then (err, st2) else if st2.use_tls then add_tls env sa st2 else (0, st2)

abbrev pub add_config : StackEnv → Sa → Option Sa → Stack → ℕ × Stack
add_config env laddr none st = (env.local_err, st)
add_config env laddr (some sa) st = if laddr.af == sa.af then add_local env sa st else (0, st)

unfoldable pub add_transp_af : StackEnv → Sa → Stack → ℕ × Stack
unfolding sip_transp_add
add_transp_af env laddr st =
    if env.local_set
    then add_config env laddr env.local st
    else add_local env (record laddr { port = 0 }) st

abbrev pub add_set : StackEnv → Option Sa → Stack → ℕ × Stack
add_set env none st = (0, st)
add_set env (some laddr) st = add_transp_af env laddr st

-- `err |=` for each family, IPv4 where IPv6 is not preferred
unfoldable pub ua_add_transp : StackEnv → Stack → ℕ × Stack
unfolding add_transp_af
ua_add_transp env st =
    let (e4, st4) = if st.prefer_ipv6 then (0, st) else add_set env env.laddr4 st in
    let (e6, st6) = add_set env env.laddr6 st4 in (bit_or e4 e6, st6)

abbrev pub new_sip : Stack → Stack
new_sip st = record st { sip = some st.made; made = suc st.made; transps = [] }

unfoldable pub ua_setup_transp : StackEnv → Bool → Bool → Bool → Stack → ℕ × Stack
unfolding ua_add_transp
ua_setup_transp env u t s st =
    let st' = record st { use_udp = u; use_tcp = t; use_tls = s } in
    if env.sip_err == 0 then ua_add_transp env (new_sip st') else (env.sip_err, st')

unfoldable pub ua_close : Stack → Stack
ua_close st = record st {
  cmds = false;
  evsock = none;
  sock = none;
  lsnr = none;
  sip = none;
  tls_made = false;
  transps = [];
}

-- one listener after the other, up to the first error
abbrev pub listen : StackEnv → Stack → ℕ × Stack
listen env st =
    let st1 = record st { lsnr = st.sip } in
    let st2 = record st1 { sock = st.sip } in
    let st3 = record st2 { evsock = st.sip } in
    if not (env.lsnr_err == 0)
    then (env.lsnr_err, st)
    else if not (env.sock_err == 0)
    then (env.sock_err, st1)
    else if not (env.ev_err == 0)
    then (env.ev_err, st2)
    else if not (env.cmd_err == 0)
    then (env.cmd_err, st3)
    else (0, record st3 { cmds = true })

abbrev pub close_on_error : ℕ × Stack → ℕ × Stack
close_on_error (err, st) = (err, if err == 0 then st else ua_close st)

abbrev pub listen_after : StackEnv → ℕ × Stack → ℕ × Stack
listen_after env (err, st) = if err == 0 then listen env st else (err, st)

unfoldable pub ua_init : StackEnv → Bool → Bool → Bool → Bool → Stack → ℕ × Stack
unfolding ua_setup_transp ua_close
ua_init env u t s prefer_ipv6 st =
    if env.net_err == 0
    then close_on_error
        (listen_after env (ua_setup_transp env u t s (record st { prefer_ipv6 = prefer_ipv6 })))
    else (env.net_err, st)

abbrev pub sessions_after : StackEnv → ℕ × Stack → ℕ × Stack
sessions_after env (err, st) =
    if not (err == 0)
    then (err, st)
    else if env.sock_err == 0
    then (0, record st { sock = st.sip })
    else (env.sock_err, st)

-- the stack is destroyed
abbrev pub down : Stack → Stack
down st = record st { sock = none; sip = none; tls_made = false; transps = [] }

-- up to the start of each user agent
unfoldable pub resume_stack : StackEnv → Bool → Bool → Bool → Stack → ℕ × Stack
unfolding ua_setup_transp
resume_stack env u t s st =
    if env.net_err == 0
    then sessions_after env (ua_setup_transp env u t s (down st))
    else (env.net_err, down st)

abbrev pub start_after : RegEnv → List RegUa → ℕ × Stack → ℕ × (Stack × List RegUa)
start_after renv ual (err, st) =
    let (err', ual') = ua_start_all renv ual in
    if err == 0 then (err', (st, ual')) else (err, (st, ual))

unfoldable pub ua_stack_resume :
    StackEnv → RegEnv → Bool → Bool → Bool → Stack × List RegUa → ℕ × (Stack × List RegUa)
unfolding resume_stack ua_start_all
ua_stack_resume env renv u t s (st, ual) = start_after renv ual (resume_stack env u t s st)
