-- ===== src/Contact.antt =====
-- The list of contacts (jni/baresip/src/contact.c). Memory and the parser of addresses are
-- parameters.
use bare_sip_android.Prelude.{ℕ, Bool, not, List, [], ◌∷◌, ◌++◌, ◌==◌, if◌then◌else◌, Bytes, enomem}

pub data PresenceStatus : Type 0 where
  presence_unknown presence_open presence_closed presence_busy : PresenceStatus

pub record Contact : Type 0 where
  pub buf : Bytes
  pub status : PresenceStatus

pub record ContactEnv : Type 0 where
  pub mem : Bool
  pub strdup_err : ℕ
  pub decode_err : Bytes → ℕ

unfoldable pub contact_add : ContactEnv → Bytes → List Contact → ℕ × List Contact
contact_add env addr cl =
    if not env.mem
    then (enomem, cl)
    else if not (env.strdup_err == 0)
    then (env.strdup_err, cl)
    else if not (env.decode_err addr == 0)
    then (env.decode_err addr, cl)
    else (0, cl ++ record { buf = addr; status = presence_unknown } ∷ [])

unfoldable pub contact_set_presence : PresenceStatus → Contact → Contact
contact_set_presence status c = record c { status = status }
