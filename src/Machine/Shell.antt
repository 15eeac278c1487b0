-- ===== src/Machine/Shell.antt =====
-- Commands and files through the shell's eyes: internal/utils/shell/cmd.go. Log lines are left out.
pub mod Words
use Prim.Native.String.{String, [], ◌∷◌}
use tvk_plugins.Base.{
  ◌==◌, ◌<>◌, Bool, true, false, not, if◌then◌else◌, Option, none, some, List, [], ◌∷◌, ◌++◌,
}
use tvk_plugins.Action.{Error, Result, ok, err, message}
use tvk_plugins.Text.{split}
use tvk_plugins.Machine.{FileInfo, DirEntry, Command, Finished, Machine}

-- The loop of `Execute` that leaves out the empty parts.
unfoldable pub non_empty : List String → List String
non_empty [] = []
non_empty (p ∷ ps) = if p == "" then non_empty ps else p ∷ non_empty ps

abbrev pub rest_of : List String → List String
rest_of [] = []
rest_of (p ∷ ps) = ps

-- `parts[0]`; `strings.Split` gives at least one part.
abbrev pub first_of : List String → String
first_of [] = ""
first_of (p ∷ ps) = p

-- What `Execute` hands to `ExecuteArgs`.
unfoldable pub command_of : List String → Bool → String → Command
unfolding non_empty split
command_of env combined s = record {
  env = env;
  combined = combined;
  name = first_of (split " " s);
  args = rest_of (non_empty (split " " s));
}

-- `err.Error()` in place of an output, beside the error.
abbrev pub Answer : Type 0
Answer = String × Option Error

abbrev told : Error → Answer
told e = (message e, some e)

module _ (M : Machine) where
  -- `ExecuteArgs`: the command inherits the environment, and what is given comes after it.
  unfoldable pub execute_args : Command → M.State → Finished × M.State
  execute_args c s = M.run (record c { env = M.environ s ++ c.env }) s

  -- `Execute`, on the text that its format gives
  unfoldable pub execute : List String → Bool → String → M.State → Finished × M.State
  unfolding command_of execute_args
  execute env combined text = execute_args (command_of env combined text)

  unfoldable pub run_cmd : String → List String → M.State → Finished × M.State
  unfolding execute
  run_cmd cmd env = execute env true cmd

  unfoldable pub chmod_r : String → String → M.State → Answer × M.State
  unfolding run_cmd
  chmod_r dir_path mode s =
      let (f, s') = run_cmd ("chmod -R " <> mode <> " " <> dir_path) [] s in ((f.out, f.error), s')

  abbrev removed_as : Result (Unit {0}) → Answer
  removed_as (ok _) = ("", none)
  removed_as (err e) = told e

  -- The switch on the file's mode, which `Lstat` has read before: no case for a symbolic link.
  unfoldable pub remove_by_mode : FileInfo → String → M.State → Answer × M.State
  remove_by_mode info path s =
      if info.is_regular
      then (let (r, s') = M.remove path s in (removed_as r, s'))
      else if info.is_dir
      then (let (r, s') = M.remove_all path s in (removed_as r, s'))
      else (("", none), s)

  abbrev remove_after : FileInfo → String → Answer → M.State → Answer × M.State
  remove_after info path (out, some e) s = ((out, some e), s)
  remove_after info path (out, none) s = remove_by_mode info path s

  abbrev rm_found : String → Result FileInfo → M.State → Answer × M.State
  rm_found path (err e) s = (told e, s)
  rm_found path (ok info) s = let (a, s') = chmod_r path "0775" s in remove_after info path a s'

  unfoldable pub rm_rf : String → M.State → Answer × M.State
  unfolding remove_by_mode chmod_r
  rm_rf path s = let (r, s') = M.lstat path s in rm_found path r s'

  abbrev directories : List DirEntry → List String
  directories [] = []
  directories (e ∷ es) = if e.is_dir then e.name ∷ directories es else directories es

  abbrev dirs_read : Result (List DirEntry) → Result (List String)
  dirs_read (err e) = err e
  dirs_read (ok es) = ok (directories es)

  unfoldable pub read_child_dir : String → M.State → Result (List String) × M.State
  read_child_dir path s = let (r, s') = M.read_dir path s in (dirs_read r, s')

  abbrev made : Finished → Answer
  made f = elim f.error [ none ↦ ("", none) | some e ↦ told e ]

  -- The command of `Mkdir`, which a shell reads: the name of the directory is not quoted.
  unfoldable pub mkdir_command : String → Command
  mkdir_command directory = record {
    env = [];
    combined = true;
    name = "bash";
    args = "-c" ∷ ("sudo mkdir " <> directory) ∷ [];
  }

  abbrev mkdir_unless : String → Result FileInfo → M.State → Answer × M.State
  mkdir_unless directory (ok info) s = (("", none), s)
  mkdir_unless directory (err e) s =
      if M.is_not_exist e
      then (let (f, s') = M.run (mkdir_command directory) s in (made f, s'))
      else (told e, s)

  unfoldable pub mkdir : String → M.State → Answer × M.State
  unfolding mkdir_command
  mkdir directory s = let (r, s') = M.stat directory s in mkdir_unless directory r s'
