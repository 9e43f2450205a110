-- ===== src/Command/Typing.antt =====
-- What the user's keys do (jni/baresip/src/cmd.c).
use bare_sip_android.Prelude.{
  ℕ, ◌≡◌, ap, ◌∙◌, true, false, none, some, [], ◌∷◌, ◌++◌, arith, Bytes, length-append,
  append_assoc, append-nil,
}
use bare_sip_android.Command.Editor.{key_enter, editor_input, IsPlain, typed, editor_input-plain}
use bare_sip_android.Command.Table.{Cmd, cmd_find_by_key}
use bare_sip_android.Command.Process.{
  CmdState, CmdEnv, cmd_process_edit, is_digit, process_key, cmd_process, input_keys, and_then,
}

-- Nothing fails: memory is had and printing succeeds.
pub record IsCalm (env : CmdEnv) : Type 0 where
  pub memory : (n : ℕ) → env.room n ≡ true
  pub copies : env.strdup_ok ≡ true
  pub allocates : env.alloc_ok ≡ true
  pub prints : env.print ≡ 0

abbrev pub AllPlain : Bytes → Type 0
AllPlain [] = Unit
AllPlain (k ∷ ks) = IsPlain k × AllPlain ks

-- the state with the editor of `cmd` open on `text`
abbrev editing : CmdState → Cmd → Bytes → CmdState
editing st cmd text = record st { ctx = some (record { mb = typed text; cmd = cmd }) }

module _ (env : CmdEnv) (calm : IsCalm env) (cmd : Cmd) (quiet : cmd.prog ≡ false) where
  process-plain :
      (st : CmdState) (text : Bytes) (key : ℕ)
      → IsPlain key
      → cmd_process env true (editing st cmd text) key ≡ some (editing st cmd (text ++ key ∷ []), 0)
  unfolding cmd_process cmd_process_edit
  process-plain st text key p =
      let e = length-append text (key ∷ []) in
      ground
        (arith, editor_input-plain env.room text key calm.memory p, p.not_enter, calm.prints, e)

  process-enter :
      (st : CmdState) (k : ℕ) (text : Bytes)
      → (err : ℕ) × (cmd_process env true (editing st cmd (k ∷ text)) key_enter
          ≡ some (
            record st {
              ctx = none;
              log =
                  (record { cmd = cmd; key = cmd.key; prm = some (k ∷ text); complete = true })
                  ∷ st.log;
            },
            err,
          ))
  unfolding cmd_process cmd_process_edit editor_input
  process-enter st k text = (
    env.handler (record { cmd = cmd; key = cmd.key; prm = some (k ∷ text); complete = true }),
    ground (arith, calm.copies, calm.prints),
  )

  input-plain :
      (st : CmdState) (text keys more : Bytes)
      → AllPlain keys
      → input_keys env true (editing st cmd text) (keys ++ more)
        ≡ input_keys env true (editing st cmd (text ++ keys)) more
  unfolding input_keys
  input-plain st text [] more h = rw append-nil
  input-plain st text (key ∷ keys) more (p, h) =
      ap (λ x. and_then env x (λ st'. input_keys env true st' (keys ++ more)))
        (process-plain st text key p)
      ∙ input-plain st (text ++ key ∷ []) keys more h
      ∙ ap (λ x. input_keys env true (editing st cmd x) more) (append_assoc text (key ∷ []) keys)

  process-command :
      (st : CmdState) (key : ℕ)
      → st.ctx ≡ none
      → cmd.prm ≡ true
      → is_digit env key ≡ false
      → cmd_find_by_key key st.cmdl ≡ some cmd
      → cmd_process env true st key ≡ some (editing st cmd [], 0)
  unfolding cmd_process cmd_process_edit editor_input process_key
  process-command st key closed prm no_digit found = ground (arith, calm.allocates, calm.prints)

-- Where nothing fails and no editor is open: the key of a command with a parameter and without
-- progress, no digit itself, then keys that are written to the buffer, at least one, and then
-- enter, call the handler of the command once, with the keys as its complete parameter; the editor
-- is closed again and nothing else has changed.
pub input_keys-command :
    (env : CmdEnv) (st : CmdState) (cmd : Cmd) (key k : ℕ) (keys : Bytes)
    → IsCalm env
    → cmd.prog ≡ false
    → cmd.prm ≡ true
    → st.ctx ≡ none
    → is_digit env key ≡ false
    → cmd_find_by_key key st.cmdl ≡ some cmd
    → AllPlain (k ∷ keys)
    → input_keys env true st (key ∷ ((k ∷ keys) ++ key_enter ∷ []))
      ≡ some (record st {
        ctx = none;
        log =
            (record { cmd = cmd; key = cmd.key; prm = some (k ∷ keys); complete = true }) ∷ st.log;
      })
unfolding input_keys
input_keys-command env st cmd key k keys calm quiet prm closed no_digit found plain =
    let rest = (k ∷ keys) ++ key_enter ∷ [] in
    let (err, sent) = process-enter env calm cmd quiet st k keys in
    ap (λ x. and_then env x (λ st'. input_keys env true st' rest))
      (process-command env calm cmd quiet st key closed prm no_digit found)
    ∙ input-plain env calm cmd quiet st [] (k ∷ keys) (key_enter ∷ []) plain
    ∙ ap (λ x. and_then env x some) sent
