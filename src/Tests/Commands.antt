-- ===== src/Tests/Commands.antt =====
-- Examples for the command interface (jni/baresip/src/cmd.c).
use bare_sip_android.Prelude.{◌≡◌, refl, true, false, none, some, List, [], ◌∷◌, ◌++◌, arith}
use bare_sip_android.Command.Table.{Cmd, Cmds, cmd_register, cmd_find_by_key}
use bare_sip_android.Command.Editor.{key_enter}
use bare_sip_android.Command.Process.{CmdState, CmdEnv, input_keys}
use bare_sip_android.Command.Typing.{input_keys-command}

abbrev calm_env : CmdEnv
calm_env = record {
  room = λ n. true;
  strdup_ok = true;
  alloc_ok = true;
  print = 0;
  help = 0;
  handler = λ inv. 0;
}

abbrev dial : Cmd
dial = record { key = b'd'; prm = true; prog = false; has_h = true; desc = b'D' ∷ [] }

abbrev quit : Cmd
quit = record { key = b'q'; prm = false; prog = false; has_h = true; desc = b'Q' ∷ [] }

abbrev menu : List Cmds
menu = record { addr = 1; cmdv = dial ∷ quit ∷ [] } ∷ []

abbrev st : CmdState
st = record { cmdl = menu; ctx = none; log = [] }

input_keys-command_example :
    input_keys calm_env true st (b'd' ∷ ((b'b' ∷ b'o' ∷ b'b' ∷ []) ++ key_enter ∷ []))
    ≡ some (record st {
      ctx = none;
      log =
          (record { cmd = dial; key = b'd'; prm = some (b'b' ∷ b'o' ∷ b'b' ∷ []); complete = true })
          ∷ [];
    })
unfolding cmd_find_by_key
input_keys-command_example =
    input_keys-command calm_env st dial b'd' b'b' (b'o' ∷ b'b' ∷ [])
      (record { memory = λ n. refl; copies = refl; allocates = refl; prints = refl }) refl refl refl
      refl refl (omega arith)

abbrev louder : List Cmd
louder = record { key = b'q'; prm = true; prog = false; has_h = true; desc = [] } ∷ []

abbrev menu_louder : List Cmds
menu_louder = menu ++ (record { addr = 2; cmdv = louder }) ∷ []

registered : cmd_register true 2 louder menu ≡ (menu_louder, 0)
unfolding cmd_register
registered = refl
