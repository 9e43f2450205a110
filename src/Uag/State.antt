-- ===== src/Uag/State.antt =====
-- A user agent, as far as its registration and its names are concerned (jni/baresip/src/ua.c,
-- struct ua and struct ua_reg), and the list of them.
use bare_sip_android.Prelude.{ℕ, Bool, Option, List, Bytes}

-- `reg` tells that there is a register client, and a `sipfd` of `none` is -1.
pub record UaReg : Type 0 where
  pub id : ℕ
  pub reg : Bool
  pub sipfd : Option ℕ
  pub srv : Option Bytes
  pub scode : ℕ

pub data RegEvent : Type 0 where
  registering register_ok register_fail : RegEvent

-- `outbound` tells which of the outbound proxies are set; the events are those that the application
-- was told, newest first.
pub record RegUa : Type 0 where
  pub regl : List UaReg
  pub regint : ℕ
  pub outbound : List Bool
  pub cuser : Bytes
  pub user : Bytes
  pub local_uri : Bytes
  pub n_bindings : ℕ
  pub af : ℕ
  pub events : List RegEvent
