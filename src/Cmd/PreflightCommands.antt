-- ===== src/Cmd/PreflightCommands.antt =====
-- The commands `run` and `cleanup` of the preflight plugin as a whole: run.go, cleanup.go, root.go and
-- helper.go of cmd/preflight/cmd. Cobra and the log lines are left out; the strict YAML decoder and
-- `logrus.ParseLevel` are parameters.
pub mod Validated
use tvk_plugins.Base.{
  String, ◌==◌, ◌<>◌, Bool, true, false, if◌then◌else◌, Option, none, some, List, [], ◌∷◌,
}
use tvk_plugins.Action.{Error, Result, ok, err, failure, message, Action}
use tvk_plugins.Program.{
  Outcome, Program, done, failed, exited, panicked, of_result, pure, lift, of_action, or_exit,
  ◌>>=◌, ◌>>◌,
}
use tvk_plugins.Machine.{Machine, Time}
use tvk_plugins.Machine.KubeEnv.{Connector, init_kube_env}
use tvk_plugins.Text.Decimal.{itoa}
use tvk_plugins.Kube.{Externals, Cluster, World}
use tvk_plugins.Preflight.Options.{Run}
use tvk_plugins.Preflight.Run.{perform_preflight_checks}
use tvk_plugins.Preflight.Cleanup.{Cleanup, cleanup_preflight_resources}
use tvk_plugins.Cmd.Process.{Process, on_machine, on_world}
use tvk_plugins.Cmd.PreflightInputs.{
  Flags, RunInputs, CleanupInputs, Quantities, set_res_req_default_values,
  override_preflight_file_inputs_from_cli, validate_run_options,
  override_cleanup_file_inputs_from_cli, validate_cleanup_fields,
}

-- `preflightCmdOps`
pub record CmdOps (X : Externals) : Type 0 where
  pub run : RunInputs X
  pub cleanup : CleanupInputs

-- `yaml.UnmarshalStrict` of a file's text over the options, and `logrus.ParseLevel`.
pub record Decoders (X : Externals) : Type 0 where
  pub quantities : Quantities X
  pub unmarshal_strict : String → CmdOps X → Result (CmdOps X)
  pub is_level : String → Bool

-- The flags, `inputFileName` among them.
pub record CommandLine : Type 0 where
  pub flags : Flags
  pub input_file_name : String

abbrev pub log_file_name : String → Time → Time → String
log_file_name prefix date clock =
    prefix
    <> "-"
    <> itoa date.year
    <> "-"
    <> itoa date.month
    <> "-"
    <> itoa date.day
    <> "T"
    <> itoa clock.hour
    <> "-"
    <> itoa clock.minute
    <> "-"
    <> itoa clock.second
    <> ".log"

-- `generateLogFileName`: the date and the clock are read one after the other.
unfoldable pub generate_log_file_name : (M : Machine) → String → Program M.State String
unfolding itoa
generate_log_file_name M prefix s =
    let (date, s') = M.now s in
    let (clock, s'') = M.now s' in (done (log_file_name prefix date clock), s'')

abbrev or_panic : {A : Type 0} → Result A → Outcome A
or_panic (ok a) = done a
or_panic (err e) = panicked

abbrev from_file : {A : Type 0} → Outcome A → Outcome A
from_file (failed e) =
    failed (failure ("failed to read preflight input from file :: " <> message e))
from_file o = o

unfoldable pub explained : {S A : Type 0} → Program S A → Program S A
explained m s = let (o, s') = m s in (from_file o, s')

module _ (M : Machine) {X : Externals} (D : Decoders X) where
  -- The file that is made, and the level of the logger: that of the options, or else INFO.
  unfoldable pub setup_logger : String → String → Program M.State (String × String)
  unfolding generate_log_file_name
  setup_logger prefix level = do
    name ← generate_log_file_name M prefix
    of_action (M.open_log name true)
    pure (name, if D.is_level level then level else "INFO")

  unfoldable pub read_file_input_options : String → CmdOps X → Program M.State (CmdOps X)
  read_file_input_options filename ops = do
    text ← of_action (M.read_file filename)
    lift (of_result (D.unmarshal_strict text ops))

  unfoldable pub manage_preflight_inputs : CommandLine → CmdOps X → Program M.State (CmdOps X)
  unfolding read_file_input_options explained set_res_req_default_values
  manage_preflight_inputs c ops = do
    resources ← lift (or_panic (set_res_req_default_values D.quantities))
    let defaulted = record ops { run = record ops.run { resources = resources } }
    read ←
        if c.input_file_name == ""
        then pure defaulted
        else explained (read_file_input_options c.input_file_name defaulted)
    run ← lift (override_preflight_file_inputs_from_cli D.quantities c.flags read.run)
    pure (record read { run = run })

  unfoldable pub manage_cleanup_inputs : CommandLine → CmdOps X → Program M.State (CmdOps X)
  unfolding read_file_input_options
  manage_cleanup_inputs c ops = do
    read ←
        if c.input_file_name == "" then pure ops else read_file_input_options c.input_file_name ops
    pure (record read { cleanup = override_cleanup_file_inputs_from_cli c.flags read.cleanup })

-- The options in the form that the checks take them.
abbrev pub run_of : {X : Externals} → RunInputs X → Run X
run_of r = record {
  storage_class = r.storage_class;
  local_registry = r.local_registry;
  image_pull_secret = r.image_pull_secret;
  service_account_name = r.service_account_name;
  perform_cleanup_on_fail = r.perform_cleanup_on_fail;
  pvc_storage_request = r.pvc_storage_request;
  resources = r.resources;
  scheduling = r.scheduling;
  namespace = r.common.namespace;
  kubeconfig = r.common.kubeconfig;
  log_level = r.common.log_level;
  in_cluster = r.common.in_cluster;
  scope = r.common.scope;
}

abbrev pub cleanup_of : CleanupInputs → Cleanup
cleanup_of c = record { uid = c.uid; namespace = c.common.namespace }

-- `K` is the cluster that the clients of `InitKubeEnv` reach.
module _ {M : Machine} {X : Externals} (D : Decoders X) (C : Connector M) (scheme : C.Scheme)
    (K : Cluster X) where
  -- The snapshot class of the options is a variable of the checks.
  unfoldable pub start_checks : RunInputs X → Action (World K) (Unit {0})
  start_checks r w =
      perform_preflight_checks K (run_of r) (record w { snapshot_class = r.snapshot_class })

  -- `RunE` of `runCmd`
  unfoldable pub run_command : CommandLine → CmdOps X → Program (Process M (World K)) (Unit {0})
  unfolding start_checks
  run_command c ops = do
    given ← on_machine (or_exit (manage_preflight_inputs M D c ops))
    (name, level) ← on_machine (or_exit (setup_logger M D "preflight" given.run.common.log_level))
    on_machine (or_exit (of_action (M.open_log name false)))
    on_machine (or_exit (init_kube_env C given.run.common.kubeconfig scheme))
    on_machine (or_exit (lift (of_result (validate_run_options D.quantities given.run))))
    on_world (start_checks given.run)

  -- `RunE` of `cleanupCmd`
  unfoldable pub cleanup_command : CommandLine → CmdOps X → Program (Process M (World K)) (Unit {0})
  cleanup_command c ops = do
    given ← on_machine (manage_cleanup_inputs M D c ops)
    (name, level) ← on_machine (setup_logger M D "preflight_cleanup" given.cleanup.common.log_level)
    on_machine (init_kube_env C given.cleanup.common.kubeconfig scheme)
    on_machine (or_exit (of_action (M.open_log name false)))
    on_machine (lift (of_result (validate_cleanup_fields given.cleanup)))
    on_world (cleanup_preflight_resources K (cleanup_of given.cleanup))
