-- ===== src/Tests/Registrations.antt =====
-- Examples for the registration of user agents and their list (jni/baresip/src/ua.c).
use bare_sip_android.Prelude.{
  ℕ, ◌<◌, ◌≡◌, ◌↔◌, refl, true, false, none, some, [], ◌∷◌, All, arith, Bytes,
}
use bare_sip_android.Uag.State.{UaReg, RegUa}
use bare_sip_android.Uag.Register.{
  RegEnv, ua_register, register_each, uareg_register, ua_regok, ua_check_registrations, RegMsg,
  register_handler,
}
use bare_sip_android.Uag.Registered.{HasOk, Success, ua_check_registrations_lem, ua_register-regok}
use bare_sip_android.Uag.Focus.{ua_cur, ua_nexts, ua_next-reaches}
use bare_sip_android.Uag.Find.{ua_find, Sought, ua_find_lem}

abbrev fine : RegEnv
fine = record { printed = true; sipreg = λ id routed. 0 }

abbrev idle_reg : UaReg
idle_reg = record { id = 1; reg = false; sipfd = none; srv = none; scode = 0 }

abbrev alice : RegUa
alice = record {
  regl = idle_reg ∷ [];
  regint = 3600;
  outbound = [];
  cuser = b'a' ∷ [];
  user = b'b' ∷ [];
  local_uri = [];
  n_bindings = 0;
  af = 0;
  events = [];
}

abbrev ok_msg : RegMsg
ok_msg = record { scode = 200; server = none; contacts = 1; fd = some 3; msg_af = 2 }

ua_register-regok_example :
    (ua_regok (ua_register fine alice).1.regl ≡ false)
    × ((ua_regok (register_handler 0 (some ok_msg) (ua_register fine alice).1).regl ≡ true)
        ↔ Success (some ok_msg))
unfolding ua_register register_each uareg_register
ua_register-regok_example = ua_register-regok fine alice 0 (some ok_msg) refl refl (omega arith)

ua_check_registrations_lem_example :
    (ua_check_registrations (alice ∷ []) false ≡ true) ↔ All (λ ua. HasOk ua.regl) (alice ∷ [])
ua_check_registrations_lem_example = ua_check_registrations_lem (alice ∷ [])

ua_next-reaches_example :
    ((k : ℕ) × ((k < 3) × (ua_cur 3 (ua_nexts k 3 (some 2)) ≡ some 1)))
    × (ua_nexts 3 3 (some 2) ≡ some 2)
ua_next-reaches_example = ua_next-reaches 3 2 1 (omega arith) (omega arith)

-- names are equal that have equal lengths
abbrev compare_lengths : Bytes → Bytes → ℕ
compare_lengths [] [] = 0
compare_lengths [] (b ∷ bs) = 1
compare_lengths (a ∷ as_) [] = 1
compare_lengths (a ∷ as_) (b ∷ bs) = compare_lengths as_ bs

ua_find_lem_example :
    Sought compare_lengths
      (b'c' ∷ [])
      (alice ∷ [])
      (ua_find compare_lengths (b'c' ∷ []) (alice ∷ []))
ua_find_lem_example = ua_find_lem compare_lengths (b'c' ∷ []) (alice ∷ [])
