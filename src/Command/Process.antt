-- ===== src/Command/Process.antt =====
-- Processing the keys of the user (jni/baresip/src/cmd.c: cmd_process, cmd_process_edit,
-- cmd_report, ctx_alloc, and jni/baresip/src/ui.c: ui_handler, ui_input_str).
use bare_sip_android.Prelude.{
  ℕ, Bool, true, false, not, ◌&&◌, ◌||◌, Option, none, some, List, [], ◌∷◌, ltb, leb, ◌==◌,
  if◌then◌else◌, Bytes, length, enomem,
}
use bare_sip_android.Command.Editor.{key_rel, key_enter, Mbuf, editor_input, Invocation, typed}
use bare_sip_android.Command.Table.{Cmd, Cmds, cmd_find_by_key}

-- the editor of a command, struct cmd_ctx
pub record CmdCtx : Type 0 where
  pub mb : Mbuf
  pub cmd : Cmd

-- the blocks, the editor of the user interface if it is open, and the calls of handlers, newest
-- first
pub record CmdState : Type 0 where
  pub cmdl : List Cmds
  pub ctx : Option CmdCtx
  pub log : List Invocation

-- What the environment gives: memory for the buffer, for a copy of a string and for an editor, the
-- errors of printing a line and the list of commands, and those of the handlers.
pub record CmdEnv : Type 0 where
  pub room : ℕ → Bool
  pub strdup_ok : Bool
  pub alloc_ok : Bool
  pub print : ℕ
  pub help : ℕ
  pub handler : Invocation → ℕ

module _ (env : CmdEnv) where
  unfoldable pub call_handler : CmdState → Invocation → CmdState × ℕ
  call_handler st inv = (record st { log = inv ∷ st.log }, env.handler inv)

  -- the whole buffer is the parameter; it is left at its start if it could not be copied
  unfoldable pub cmd_report : CmdState → CmdCtx → Bool → CmdState × ℕ
  unfolding call_handler
  cmd_report st ctx compl =
      if env.strdup_ok
      then call_handler (record st { ctx = some (record ctx { mb = typed ctx.mb.text }) })
          (record { cmd = ctx.cmd; key = ctx.cmd.key; prm = some ctx.mb.text; complete = compl })
      else (
        record st { ctx = some (record ctx { mb = record { text = ctx.mb.text; pos = 0 } }) },
        enomem,
      )

  -- A command is told of the text when it is complete, or at each key if it shows progress.
  unfoldable pub cmd_process_edit : CmdState → CmdCtx → ℕ → CmdState × ℕ
  unfolding cmd_report
  cmd_process_edit st ctx key =
      let compl = key == key_enter in
      let e = editor_input env.room env.print ctx.mb key in
      let ctx' : CmdCtx = record ctx { mb = e.mb } in
      let edited : CmdState = record st { ctx = some ctx' } in
      let (st', err) =
        if not (length e.mb.text == 0) && (compl || ctx.cmd.prog)
        then cmd_report edited ctx' compl
        else (edited, 0) in
      if not (e.err == 0)
      then (edited, e.err)
      else (record st' { ctx = if e.del then none else st'.ctx }, err)

  abbrev pub is_digit : ℕ → Bool
  is_digit key = leb b'0' key && leb key b'9'

  -- `none` is an access through a NULL pointer: an editor is wanted and there is no place for it
  unfoldable pub run_command : Bool → CmdState → Cmd → ℕ → Option (CmdState × ℕ)
  unfolding cmd_process_edit call_handler
  run_command has_ctxp st cmd key =
      if cmd.prm
      then if not has_ctxp
        then none
        else if not env.alloc_ok
        then some (st, enomem)
        else some (
            cmd_process_edit st (record { mb = typed []; cmd = cmd })
              (if is_digit key then key else key_rel))
      else some (call_handler st (record { cmd = cmd; key = key; prm = none; complete = true }))

  unfoldable pub process_key : Bool → CmdState → ℕ → Option Cmd → Option (CmdState × ℕ)
  unfolding run_command
  process_key has_ctxp st key (some cmd) = run_command has_ctxp st cmd key
  process_key has_ctxp st key none = some (st, if key == key_rel then 0 else env.help)

  abbrev pub dispatch : Bool → CmdState → ℕ → Option CmdCtx → Option (CmdState × ℕ)
  dispatch true st key (some ctx) = some (cmd_process_edit st ctx key)
  dispatch true st key none = process_key true st key (cmd_find_by_key key st.cmdl)
  dispatch false st key _ = process_key false st key (cmd_find_by_key key st.cmdl)

  -- the flag tells whether `ctxp` is not NULL
  unfoldable pub cmd_process : Bool → CmdState → ℕ → Option (CmdState × ℕ)
  cmd_process has_ctxp st key = dispatch has_ctxp st key st.ctx

  abbrev pub and_then : Option (CmdState × ℕ) → (CmdState → Option CmdState) → Option CmdState
  and_then none f = none
  and_then (some (st, _)) f = f st

  -- the loop of ui_input_str, and ui_handler, which drops the error
  unfoldable pub input_keys : Bool → CmdState → Bytes → Option CmdState
  input_keys has_ui st [] = some st
  input_keys has_ui st (key ∷ keys) =
      and_then (cmd_process has_ui st key) (λ st'. input_keys has_ui st' keys)

  abbrev last_or : ℕ → Bytes → ℕ
  last_or key [] = key
  last_or key (k ∷ keys) = last_or k keys

  abbrev pub bind_state : Option CmdState → (CmdState → Option CmdState) → Option CmdState
  bind_state none f = none
  bind_state (some st) f = f st

  -- a text of more than one key that does not end in a new line gets one
  unfoldable pub ui_input_str : Bool → CmdState → Bytes → Option CmdState
  ui_input_str has_ui st str =
      let enter = ltb 1 (length str) && not (last_or 0 str == key_enter) in
      bind_state (input_keys has_ui st str)
        (λ st'. if enter then input_keys has_ui st' (key_enter ∷ []) else some st')
