-- ===== src/Command/Table.antt =====
-- The registered blocks of commands (jni/baresip/src/cmd.c: cmd_register, cmd_unregister,
-- cmds_find, cmd_find_by_key). The array of a block has an address, which tells blocks apart; 0 is
-- NULL.
use bare_sip_android.Prelude.{
  ℕ, ◌≡◌, Bool, true, false, ◌&&◌, ◌||◌, Option, none, some, List, [], ◌∷◌, ◌++◌, arith, ◌==◌,
  or_else, if◌then◌else◌, Bytes, einval, ealready, enomem,
}

pub record Cmd : Type 0 where
  pub key : ℕ
  pub prm : Bool  -- CMD_PRM
  pub prog : Bool  -- CMD_PROG
  pub has_h : Bool  -- the handler is not NULL
  pub desc : Bytes

pub record Cmds : Type 0 where
  pub addr : ℕ
  pub cmdv : List Cmd

unfoldable pub cmds_find : ℕ → List Cmds → Option Cmds
cmds_find addr [] = none
cmds_find addr (b ∷ cmdl) = if b.addr == addr then some b else cmds_find addr cmdl

abbrev pub is_some {ℓ} : {A : Type ℓ} → Option A → Bool
is_some none = false
is_some (some _) = true

abbrev pub is_empty : List Cmd → Bool
is_empty [] = true
is_empty (_ ∷ _) = false

-- the list of blocks and the error; `alloc` tells whether memory could be had
unfoldable pub cmd_register : Bool → ℕ → List Cmd → List Cmds → List Cmds × ℕ
unfolding cmds_find
cmd_register alloc addr cmdv cmdl =
    if addr == 0 || is_empty cmdv
    then (cmdl, einval)
    else if is_some (cmds_find addr cmdl)
    then (cmdl, ealready)
    else if alloc
    then (cmdl ++ (record { addr = addr; cmdv = cmdv }) ∷ [], 0)
    else (cmdl, enomem)

-- the block that cmds_find finds is unlinked
unfoldable pub remove : ℕ → List Cmds → List Cmds
remove addr [] = []
remove addr (b ∷ cmdl) = if b.addr == addr then cmdl else b ∷ remove addr cmdl

-- cmds_find finds nothing for NULL
unfoldable pub cmd_unregister : ℕ → List Cmds → List Cmds
unfolding remove
cmd_unregister addr cmdl = if addr == 0 then cmdl else remove addr cmdl

unfoldable pub find_in : ℕ → List Cmd → Option Cmd
find_in key [] = none
find_in key (cmd ∷ cmdv) = if cmd.key == key && cmd.has_h then some cmd else find_in key cmdv

-- Within a block the first command with a handler; the loop over the blocks starts at the tail, so
-- what stands in the rest of the list goes first.
unfoldable pub cmd_find_by_key : ℕ → List Cmds → Option Cmd
unfolding find_in
cmd_find_by_key key [] = none
cmd_find_by_key key (b ∷ cmdl) = or_else (cmd_find_by_key key cmdl) (find_in key b.cmdv)

find-append :
    (key : ℕ) (cmdl : List Cmds) (b : Cmds)
    → cmd_find_by_key key (cmdl ++ b ∷ []) ≡ or_else (find_in key b.cmdv) (cmd_find_by_key key cmdl)
unfolding cmd_find_by_key
find-append key [] b = ground arith
find-append key (a ∷ cmdl) b = ground (arith, find-append key cmdl b)

-- A block that is registered with success comes before all others in the search by key: the first
-- command with a handler in it is found, and if it has none the search goes on as before.
cmd_find_by_key-register :
    (key addr : ℕ) (cmdv : List Cmd) (cmdl : List Cmds) {new : List Cmds}
    → cmd_register true addr cmdv cmdl ≡ (new, 0)
    → cmd_find_by_key key new ≡ or_else (find_in key cmdv) (cmd_find_by_key key cmdl)
unfolding cmd_register
cmd_find_by_key-register key addr cmdv cmdl {new} e =
    ground (arith, find-append key cmdl (record { addr = addr; cmdv = cmdv }))

remove-append :
    (addr : ℕ) (cmdv : List Cmd) (cmdl : List Cmds)
    → cmds_find addr cmdl ≡ none
    → remove addr (cmdl ++ (record { addr = addr; cmdv = cmdv }) ∷ []) ≡ cmdl
unfolding remove cmds_find
remove-append addr cmdv [] e = ground arith
remove-append addr cmdv (b ∷ cmdl) e = ground (arith, remove-append addr cmdv cmdl)

-- Unregistering a block that was registered with success restores the list of blocks.
cmd_unregister-register :
    (alloc : Bool) (addr : ℕ) (cmdv : List Cmd) (cmdl : List Cmds) {new : List Cmds}
    → cmd_register alloc addr cmdv cmdl ≡ (new, 0)
    → cmd_unregister addr new ≡ cmdl
unfolding cmd_register cmd_unregister
cmd_unregister-register alloc addr cmdv cmdl {new} e = ground (arith, remove-append addr cmdv cmdl)
