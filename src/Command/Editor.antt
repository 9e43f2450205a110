-- ===== src/Command/Editor.antt =====
-- The line editor of a command with a parameter (jni/baresip/src/cmd.c: editor_input, cmd_report).
-- Of the buffer `text` holds the bytes up to `end`. Whether it can grow, whether a string can be
-- copied, and the error of printing are parameters.
use bare_sip_android.Prelude.{
  ℕ, zero, suc, ◌+◌, ◌-◌, ◌≡◌, ◌≢◌, bit_or, Bool, true, false, ◌||◌, Option, [], ◌∷◌, ◌++◌, arith,
  ltb, ◌==◌, if◌then◌else◌, Bytes, length, take, enomem,
}
use bare_sip_android.Command.Table.{Cmd}

abbrev pub key_rel : ℕ
key_rel = 0x00

abbrev pub key_esc : ℕ
key_esc = 0x1b

abbrev pub key_del : ℕ
key_del = 0x7f

abbrev pub key_enter : ℕ
key_enter = b'\n'

abbrev pub key_backspace : ℕ
key_backspace = 8

pub record Mbuf : Type 0 where
  pub text : Bytes
  pub pos : ℕ

unfoldable pub set_byte : Bytes → ℕ → ℕ → Bytes
set_byte [] i v = []
set_byte (x ∷ xs) zero v = v ∷ xs
set_byte (x ∷ xs) (suc i) v = x ∷ set_byte xs i v

-- mbuf_write_u8 of the library re: in the middle a byte is replaced, at the end the buffer grows
unfoldable pub write_u8 : (ℕ → Bool) → Mbuf → ℕ → Mbuf × ℕ
unfolding set_byte
write_u8 room mb key =
    if ltb mb.pos (length mb.text)
    then (record { text = set_byte mb.text mb.pos key; pos = mb.pos + 1 }, 0)
    else if room (mb.pos + 1)
    then (record { text = mb.text ++ key ∷ []; pos = mb.pos + 1 }, 0)
    else (mb, enomem)

-- the buffer, whether the editor is to be closed, and the error
pub record Edited : Type 0 where
  pub mb : Mbuf
  pub del : Bool
  pub err : ℕ

unfoldable pub erase_last : Mbuf → Mbuf
erase_last mb =
    if ltb 0 mb.pos then record { text = take (mb.pos - 1) mb.text; pos = mb.pos - 1 } else mb

unfoldable pub editor_input : (ℕ → Bool) → ℕ → Mbuf → ℕ → Edited
unfolding write_u8 erase_last
editor_input room print mb key =
    if key == key_esc
    then record { mb = mb; del = true; err = print }
    else if key == key_rel
    then record { mb = mb; del = false; err = print }
    else if key == key_enter
    then record { mb = mb; del = true; err = print }
    else if key == key_backspace || key == key_del
    then record { mb = erase_last mb; del = false; err = print }
    else let (mb', err) = write_u8 room mb key in
      record { mb = mb'; del = false; err = bit_or err print }

-- the arguments of a handler, with the command whose handler it is
pub record Invocation : Type 0 where
  pub cmd : Cmd
  pub key : ℕ
  pub prm : Option Bytes
  pub complete : Bool

-- A key that is written to the buffer.
pub record IsPlain (key : ℕ) : Type 0 where
  pub not_rel : key ≢ key_rel
  pub not_esc : key ≢ key_esc
  pub not_enter : key ≢ key_enter
  pub not_backspace : key ≢ key_backspace
  pub not_del : key ≢ key_del

-- the buffer whose next byte goes to its end
abbrev pub typed : Bytes → Mbuf
typed text = record { text = text; pos = length text }

pub editor_input-plain :
    (room : ℕ → Bool) (text : Bytes) (key : ℕ)
    → ((n : ℕ) → room n ≡ true)
    → IsPlain key
    → editor_input room 0 (typed text) key ≡ record {
      mb = record { text = text ++ key ∷ []; pos = length text + 1 };
      del = false;
      err = 0;
    }
unfolding editor_input
editor_input-plain room text key memory p = ground (arith, memory (length text + 1))
