-- ===== src/Uag/Listeners.antt =====
-- On which SIP stack the user agents listen (jni/baresip/src/ua.c, ua_init, ua_stack_resume).
use bare_sip_android.Prelude.{
  ℕ, suc, ◌≡◌, refl, not, bit_or, if_either, sym, ap, ◌∙◌, Bool, true, false, Option, List, none,
  some, ◌==◌, if◌then◌else◌, arith, Bool-cases, inl, inr,
}
use bare_sip_android.Uag.State.{RegUa}
use bare_sip_android.Uag.Register.{RegEnv}
use bare_sip_android.Uag.Stack.{
  start_after, Transp, Sa, Stack, StackEnv, sip_transp_add, add_if, next_port, add_tls, add_local,
  add_config, add_transp_af, add_set, ua_add_transp, new_sip, ua_setup_transp, listen,
  close_on_error, listen_after, ua_init, sessions_after, down, resume_stack, ua_stack_resume,
}

-- the stack and the listeners, and how many stacks were made
abbrev pub Listeners : Type 0
Listeners = (Option ℕ × Option ℕ) × ((Option ℕ × Option ℕ) × ℕ)

abbrev pub listeners : Stack → Listeners
listeners st = ((st.sip, st.lsnr), ((st.sock, st.evsock), st.made))

abbrev pub Same : Stack → ℕ × Stack → Type 0
Same st (err, st') = listeners st' ≡ listeners st

-- all on the stack with a number, which is the newest
abbrev pub listening : ℕ → Listeners
listening n = ((some n, some n), ((some n, some n), suc n))

module _ (env : StackEnv) where
  add_listeners :
      (t : Transp) (sa : Sa) (st : Stack) → listeners (sip_transp_add env t sa st).1 ≡ listeners st
  unfolding sip_transp_add
  add_listeners t sa st = ground arith

  if_listeners :
      (b : Bool) (t : Transp) (sa : Sa) (st : Stack)
      → listeners (add_if env b t sa st).1 ≡ listeners st
  if_listeners true t sa st = add_listeners t sa st
  if_listeners false t sa st = refl

  tls_listeners : (sa : Sa) (st : Stack) → listeners (add_tls env sa st).1 ≡ listeners st
  tls_listeners sa st =
      if_either (Same st) st.tls_made (add_listeners Transp.tls (next_port sa) st) (
        if_either (Same st) (env.tls_err == 0)
          (add_listeners Transp.tls (next_port sa) (record st { tls_made = true })) refl)

  local_listeners : (sa : Sa) (st : Stack) → listeners (add_local env sa st).1 ≡ listeners st
  local_listeners sa st =
      let (e1, st1) = add_if env st.use_udp Transp.udp sa st in
      let (e2, st2) = add_if env st.use_tcp Transp.tcp sa st1 in
      let k =
        if_listeners st.use_tcp Transp.tcp sa st1 ∙ if_listeners st.use_udp Transp.udp sa st in
      if_either (Same st) (not (bit_or e1 e2 == 0)) k
        (if_either (Same st) st2.use_tls (tls_listeners sa st2 ∙ k) k)

  config_listeners :
      (laddr : Sa) (o : Option Sa) (st : Stack)
      → listeners (add_config env laddr o st).1 ≡ listeners st
  config_listeners laddr none st = refl
  config_listeners laddr (some sa) st =
      if_either (Same st) (laddr.af == sa.af) (local_listeners sa st) refl

  af_listeners : (laddr : Sa) (st : Stack) → listeners (add_transp_af env laddr st).1 ≡ listeners st
  unfolding add_transp_af
  af_listeners laddr st =
      if_either (Same st) env.local_set (config_listeners laddr env.local st)
        (local_listeners (record laddr { port = 0 }) st)

  set_listeners : (o : Option Sa) (st : Stack) → listeners (add_set env o st).1 ≡ listeners st
  set_listeners none st = refl
  set_listeners (some laddr) st = af_listeners laddr st

  transp_listeners : (st : Stack) → listeners (ua_add_transp env st).1 ≡ listeners st
  unfolding ua_add_transp
  transp_listeners st =
      set_listeners env.laddr6 (if st.prefer_ipv6 then (0, st) else add_set env env.laddr4 st).1
      ∙ if_either (Same st) st.prefer_ipv6 refl (set_listeners env.laddr4 st)

  -- A stack that is set up is the newest, and the listeners are as they were.
  SetUp : Stack → ℕ × Stack → Type 0
  SetUp st (err, st') =
      err ≡ 0 → listeners st' ≡ ((some st.made, st.lsnr), ((st.sock, st.evsock), suc st.made))

  setup-SetUp : (u t s : Bool) (st : Stack) → SetUp st (ua_setup_transp env u t s st)
  unfolding SetUp ua_setup_transp
  setup-SetUp u t s st = elim (Bool-cases (env.sip_err == 0)) [
    | inl z ↦
        rw (z)
          (λ e. transp_listeners (new_sip (record st { use_udp = u; use_tcp = t; use_tls = s })))
    | inr z ↦ rw (z) (λ e. ground (arith, e, z))
  ]

  all_listen :
      (st : Stack)
      → (listen env st).0 ≡ 0
      → listeners (listen env st).1 ≡ ((st.sip, st.sip), ((st.sip, st.sip), st.made))
  all_listen st e = ground (arith, e)

  closed_at : (r : ℕ × Stack) → (close_on_error r).0 ≡ 0 → (r.0 ≡ 0) × (close_on_error r ≡ (0, r.1))
  closed_at (err, st) e = (e, ground (arith, e))

  listened :
      (r : ℕ × Stack)
      → (listen_after env r).0 ≡ 0
      → (r.0 ≡ 0) × (listen_after env r ≡ listen env r.1)
  listened (err, st) e = elim (Bool-cases (err == 0)) [
    | inl z ↦ (ground (arith, z), rw (z) refl)
    | inr z ↦ ground (arith, e, z)
  ]

  initial :
      (r : ℕ × Stack) (st : Stack)
      → SetUp st r
      → (close_on_error (listen_after env r)).0 ≡ 0
      → listeners (close_on_error (listen_after env r)).1 ≡ listening st.made
  unfolding SetUp
  initial (err, st') st h e =
      let (l, c) = closed_at (listen_after env (err, st')) e in
      let (z, k) = listened (err, st') l in
      ap (λ r. listeners r.1) c
      ∙ ap (λ r. listeners r.1) k
      ∙ all_listen st' (sym (ap (λ r. r.0) k) ∙ l)
      ∙ ap (λ ls. ((ls.0.0, ls.0.0), ((ls.0.0, ls.0.0), ls.1.1))) (h z)

  init-listeners :
      (u t s prefer_ipv6 : Bool) (st : Stack)
      → (ua_init env u t s prefer_ipv6 st).0 ≡ 0
      → listeners (ua_init env u t s prefer_ipv6 st).1 ≡ listening st.made
  unfolding ua_init SetUp
  init-listeners u t s prefer_ipv6 st = elim (Bool-cases (env.net_err == 0)) [
    | inl z ↦ rw (z) (
        initial (ua_setup_transp env u t s (record st { prefer_ipv6 = prefer_ipv6 })) st
          (setup-SetUp u t s (record st { prefer_ipv6 = prefer_ipv6 })))
    | inr z ↦ rw (z) (λ e. ground (arith, e, z))
  ]

  resumed :
      (r : ℕ × Stack) (st : Stack)
      → SetUp st r
      → (sessions_after env r).0 ≡ 0
      → listeners (sessions_after env r).1
        ≡ ((some st.made, st.lsnr), ((some st.made, st.evsock), suc st.made))
  unfolding SetUp
  resumed (err, st') st h = elim (Bool-cases (err == 0)) [
    | inl z ↦ elim (Bool-cases (env.sock_err == 0)) [
      | inl y ↦
          rw (z, y)
            (λ e.
              ap (λ ls. ((ls.0.0, ls.0.1), ((ls.0.0, ls.1.0.1), ls.1.1))) (h (ground (arith, z))))
      | inr y ↦ rw (z, y) (λ e. ground (arith, e, y))
    ]
    | inr z ↦ rw (z) (λ e. ground (arith, e, z))
  ]

  resume-listeners :
      (u t s : Bool) (st : Stack)
      → (resume_stack env u t s st).0 ≡ 0
      → listeners (resume_stack env u t s st).1
        ≡ ((some st.made, st.lsnr), ((some st.made, st.evsock), suc st.made))
  unfolding resume_stack SetUp
  resume-listeners u t s st = elim (Bool-cases (env.net_err == 0)) [
    | inl z ↦ rw (z) (resumed _ (down st) (setup-SetUp u t s (down st)))
    | inr z ↦ rw (z) (λ e. ground (arith, e, z))
  ]

module _ (renv : RegEnv) (ual : List RegUa) where
  started_state : (r : ℕ × Stack) → listeners (start_after renv ual r).1.0 ≡ listeners r.1
  started_state (err, st) =
      if_either {A = ℕ × (Stack × List RegUa)} (λ r. listeners r.1.0 ≡ listeners st) (err == 0) refl
        refl

  started_error : (r : ℕ × Stack) → (start_after renv ual r).0 ≡ 0 → r.0 ≡ 0
  started_error (err, st) e = elim (Bool-cases (err == 0)) [
    | inl z ↦ ground (arith, z)
    | inr z ↦ ground (arith, e, z)
  ]

-- Where the user agents were initialised with success, sessions, other requests and events are all
-- listened for on the SIP stack that was made then. Where that is resumed with success, only
-- sessions are listened for on the new stack: the listeners of other requests and of events stay
-- with the former one.
pub ua_stack_resume-listeners :
    (env later : StackEnv) (renv : RegEnv) (u t s prefer_ipv6 u' t' s' : Bool) (st : Stack)
    (ual : List RegUa)
    → (ua_init env u t s prefer_ipv6 st).0 ≡ 0
    → (ua_stack_resume later renv u' t' s' ((ua_init env u t s prefer_ipv6 st).1, ual)).0 ≡ 0
    → (listeners (ua_init env u t s prefer_ipv6 st).1 ≡ listening st.made)
      × (listeners
            (ua_stack_resume later renv u' t' s' ((ua_init env u t s prefer_ipv6 st).1, ual)).1.0
          ≡ (
            (some (suc st.made), some st.made),
            ((some (suc st.made), some st.made), suc (suc st.made)),
          ))
unfolding ua_stack_resume
ua_stack_resume-listeners env later renv u t s prefer_ipv6 u' t' s' st ual e f =
    let i = init-listeners env u t s prefer_ipv6 st e in
    let st1 = (ua_init env u t s prefer_ipv6 st).1 in
    (
      i,
      started_state renv ual (resume_stack later u' t' s' st1)
          ∙ resume-listeners later u' t' s' st1
              (started_error renv ual (resume_stack later u' t' s' st1) f)
          ∙ ap (λ ls. ((some ls.1.1, ls.0.1), ((some ls.1.1, ls.1.0.1), suc ls.1.1))) i,
    )
