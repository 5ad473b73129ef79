-- ===== src/Cli/Dispatch.antt =====
-- `main` of main.go: which command runs, and on which arguments. The first argument of the process
-- is its own name.
use bloom_filter_jyy_0098_go.Base.{
  ℕ, Bool, true, false, List, [], ◌∷◌, ◌==◌, if◌then◌else◌, Result, ok, err, panic,
}
use bloom_filter_jyy_0098_go.Cli.{reorder_flags}

pub data Command : Type 0 where
  add check info store_add store_check checkpoint : Command

pub data DispatchError : Type 0 where
  usage unknown_command : DispatchError

-- Equality of strings.
unfoldable pub same : List ℕ → List ℕ → Bool
same [] [] = true
same [] (d ∷ ds) = false
same (c ∷ cs) [] = false
same (c ∷ cs) (d ∷ ds) = let rest = same cs ds in if c == d then rest else false

abbrev pub add_name : List ℕ
add_name = b'a' ∷ b'd' ∷ b'd' ∷ []

abbrev pub check_name : List ℕ
check_name = b'c' ∷ b'h' ∷ b'e' ∷ b'c' ∷ b'k' ∷ []

abbrev pub info_name : List ℕ
info_name = b'i' ∷ b'n' ∷ b'f' ∷ b'o' ∷ []

-- `store-` before the name of a command.
abbrev pub store_name : List ℕ → List ℕ
store_name name = b's' ∷ b't' ∷ b'o' ∷ b'r' ∷ b'e' ∷ b'-' ∷ name

abbrev pub checkpoint_name : List ℕ
checkpoint_name = b'c' ∷ b'h' ∷ b'e' ∷ b'c' ∷ b'k' ∷ b'p' ∷ b'o' ∷ b'i' ∷ b'n' ∷ b't' ∷ []

unfoldable pub command_of : List ℕ → Result DispatchError Command
unfolding same
command_of cmd =
    if same cmd add_name
    then ok add
    else if same cmd check_name
    then ok check
    else if same cmd info_name
    then ok info
    else if same cmd (store_name add_name)
    then ok store_add
    else if same cmd (store_name check_name)
    then ok store_check
    else if same cmd checkpoint_name
    then ok checkpoint
    else err unknown_command

unfoldable pub dispatch : List (List ℕ) → Result DispatchError (Command × List (List ℕ))
unfolding command_of reorder_flags
dispatch [] = err usage
dispatch (name ∷ []) = err usage
dispatch (name ∷ cmd ∷ args) = elim (command_of cmd) [
  | ok c ↦ ok (c, reorder_flags args)
  | err e ↦ err e
  | panic ↦ panic
]
