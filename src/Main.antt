-- ===== src/Main.antt =====
-- main.go: the command `etcd-play`, over the command-line package that runs it.
use etcd_play.Base.{ℕ, Bool, true, List, [], ◌∷◌, ◌++◌, Option, none, some}
use etcd_play.Base.Text.{Text, codes}

-- A cobra command: its name, its help, what it is suggested for, and its subcommands' names.
pub record Command : Type 0 where
  pub usage : Text
  pub short : Text
  pub suggest_for : List Text
  pub commands : List Text

-- The command that backend/backend.go adds.
abbrev pub web_command : Text
web_command = codes "web"

-- rootCommand, with what `init` adds to it
abbrev pub root_command : Command
root_command = record {
  usage = codes "etcd-play";
  short = codes "etcd-play plays etcd.";
  suggest_for =
      codes "etcd-play"
      ∷ codes "etcdplay"
      ∷ codes "etcdp"
      ∷ codes "etcd-play"
      ∷ codes "etc-play"
      ∷ [];
  commands = web_command ∷ [];
}

-- cobra.EnablePrefixMatching
abbrev pub enable_prefix_matching : Bool
enable_prefix_matching = true

-- What the process prints, and its exit code.
pub record Exit : Type 0 where
  pub stdout : Text
  pub code : ℕ

-- main, over the error that Execute returns, as Fprintln shows it
unfoldable pub main : (Bool → Command → Option Text) → Exit
main execute = elim (execute enable_prefix_matching root_command) [
  | some e ↦ record { stdout = e ++ 10 ∷ []; code = 1 }
  | none ↦ record { stdout = []; code = 0 }
]
