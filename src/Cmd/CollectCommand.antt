-- ===== src/Cmd/CollectCommand.antt =====
-- The command of the log collector as a whole: `preRun` and `runLogCollector` of
-- cmd/log-collector/cmd/root.go, and `manageFileInputs` of helper.go. Cobra and the log lines are left
-- out; the strict YAML decoder and `logrus.ParseLevel` are parameters.
pub mod Collected
use tvk_plugins.Base.{String, ◌==◌, ◌<>◌, Bool, true, false, if◌then◌else◌, List}
use tvk_plugins.Action.{Result, Action}
use tvk_plugins.Program.{
  Outcome, Program, done, failed, exited, panicked, of_result, pure, lift, of_action, or_exit,
  ◌>>=◌, ◌>>◌,
}
use tvk_plugins.Machine.{Machine, Time}
use tvk_plugins.Text.Decimal.{itoa, two_digits}
use tvk_plugins.Collector.Host.{Objects, Host, Session}
use tvk_plugins.Collector.Filters.{Options}
use tvk_plugins.Collector.Gather.Run.{collect_logs_and_dump}
use tvk_plugins.Cmd.Gvks.{Parsed, parsed}
use tvk_plugins.Cmd.Gvks
use tvk_plugins.Cmd.CollectInputs.{
  Flags, Inputs, Calls, override_file_inputs_from_cli, is_contradictory,
}
use tvk_plugins.Cmd.Process.{Process, on_machine, on_world}

-- `yaml.UnmarshalStrict` of a file's text over the inputs, and `logrus.ParseLevel`.
pub record Decoders : Type 0 where
  pub unmarshal_strict : String → Inputs → Result Inputs
  pub is_level : String → Bool

-- The flags, `inputFileName` among them.
pub record CommandLine : Type 0 where
  pub flags : Flags
  pub input_file_name : String

abbrev pub outcome_of : {A : Type 0} → Parsed A → Outcome A
outcome_of (parsed a) = done a
outcome_of (Gvks.failed e) = failed e
outcome_of Gvks.panicked = panicked

-- `"triliovault-"` and the time by `%d-%02d-%02dT%02d-%02d-%02d`
unfoldable pub output_dir_at : Time → String
unfolding itoa two_digits
output_dir_at t =
    "triliovault-"
    <> itoa t.year
    <> "-"
    <> two_digits t.month
    <> "-"
    <> two_digits t.day
    <> "T"
    <> two_digits t.hour
    <> "-"
    <> two_digits t.minute
    <> "-"
    <> two_digits t.second

-- The fields of `LogCollector` that a run does not change.
abbrev pub options_of : Inputs → String → Options
options_of i dir = record {
  output_dir = dir;
  clean_output = i.clean_output;
  clustered = i.clustered;
  label_selectors = i.label_selectors;
  gvks = i.gvks;
}

-- `calls` are those that `overrideFileInputsFromCLI` makes, by the state in which it makes them.
module _ (M : Machine) (D : Decoders) (calls : M.State → Calls) where
  unfoldable pub read_inputs : String → Inputs → Program M.State Inputs
  read_inputs filename i = do
    text ← of_action (M.read_file filename)
    lift (of_result (D.unmarshal_strict text i))

  unfoldable pub overridden : Flags → Inputs → Program M.State Inputs
  unfolding override_file_inputs_from_cli
  overridden f i s = (outcome_of (override_file_inputs_from_cli (calls s) f i), s)

  unfoldable pub manage_file_inputs : CommandLine → Inputs → Program M.State Inputs
  unfolding read_inputs overridden
  manage_file_inputs c i = do
    read ← if c.input_file_name == "" then pure i else read_inputs c.input_file_name i
    overridden c.flags read

  unfoldable pub now : Program M.State Time
  now s = let (t, s') = M.now s in (done t, s')

  -- Both tests end the program by `log.Fatalf`.
  unfoldable pub checked : Inputs → Outcome (Unit {0})
  unfolding is_contradictory
  checked i =
      if D.is_level i.log_level then if is_contradictory i then exited else done tt else exited

  -- `preRun`: the inputs, and the name of the output directory.
  unfoldable pub pre_run : CommandLine → Inputs → Program M.State (Inputs × String)
  unfolding manage_file_inputs checked now output_dir_at
  pre_run c i = do
    given ← or_exit (manage_file_inputs c i)
    lift (checked given)
    t ← now
    pure (given, output_dir_at t)

  module _ {O : Objects} (H : Host O) where
    unfoldable pub start_collection : Inputs → String → Action (Session H) (Unit {0})
    start_collection i dir w =
        collect_logs_and_dump H (options_of i dir) (record w { namespaces = i.namespaces })

    -- `preRun` and then `runLogCollector`, where an error of the collection is given to `log.Fatalf`
    unfoldable pub collect_command :
        CommandLine → Inputs → Program (Process M (Session H)) (Unit {0})
    unfolding pre_run start_collection
    collect_command c i = do
      (given, dir) ← on_machine (pre_run c i)
      or_exit (on_world (start_collection given dir))
