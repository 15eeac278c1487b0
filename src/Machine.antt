-- ===== src/Machine.antt =====
-- The machine that the commands run on, as calls on an unknown state: the environment, processes
-- and files (`os`, `os/exec`, `io`, `time`, and homedir). No call is modelled; the code around them is.
pub mod Shell
pub mod KubeEnv
use tvk_plugins.Base.{ℕ, String, Bool, Option, List}
use tvk_plugins.Action.{Error, Action}

-- `os.FileInfo`, where a symbolic link is neither regular nor a directory.
pub record FileInfo : Type 0 where
  pub size : ℕ
  pub is_regular : Bool
  pub is_dir : Bool

pub record DirEntry : Type 0 where
  pub name : String
  pub is_dir : Bool

-- `exec.Command` with `Env`, and whether `CombinedOutput` or `Output` runs it.
pub record Command : Type 0 where
  pub env : List String
  pub combined : Bool
  pub name : String
  pub args : List String

-- What has been run: the bytes of its output as text, the exit code where the process has one, and
-- the error.
pub record Finished : Type 0 where
  pub out : String
  pub exit_code : Option ℕ
  pub error : Option Error

-- `time.Time`, as `Date` and `Clock` give it.
pub record Time : Type 0 where
  pub year : ℕ
  pub month : ℕ
  pub day : ℕ
  pub hour : ℕ
  pub minute : ℕ
  pub second : ℕ

pub record Machine : Type 1 where
  pub State : Type 0
  pub environ : State → List String
  pub lookup_env : String → State → Option String
  pub now : State → Time × State
  -- `os.IsNotExist`
  pub is_not_exist : Error → Bool
  pub expand_home : String → Action State String
  pub run : Command → State → Finished × State
  pub stat : String → Action State FileInfo
  pub lstat : String → Action State FileInfo
  pub read_dir : String → Action State (List DirEntry)
  pub read_file : String → Action State String
  pub open_read : String → Action State (Unit {0})
  -- `os.OpenFile` for writing: whether the file is made if it is absent, else it is appended to
  pub open_log : String → Bool → Action State (Unit {0})
  pub mkdir_all : String → Action State (Unit {0})
  pub create : String → Action State (Unit {0})
  -- `io.Copy` into the file of the first name from that of the second
  pub copy_into : String → String → Action State (Unit {0})
  pub remove : String → Action State (Unit {0})
  pub remove_all : String → Action State (Unit {0})
