-- ===== src/Tests/Processes.antt =====
-- A machine on which every call succeeds, and the theorems on the shell, the clients and the commands
-- applied to it.
use tvk_plugins.Base.{
  ℕ, suc, String, ◌==◌, ◌||◌, inl, inr, true, false, if◌then◌else◌, ◌≡◌, refl, none, some, List, [],
  ◌∷◌,
}
use tvk_plugins.Action.{ok, err, failure}
use tvk_plugins.Program.{done, failed}
use tvk_plugins.Machine.{FileInfo, Finished, Time, Machine}
use tvk_plugins.Machine.Shell.{run_cmd}
use tvk_plugins.Machine.Shell.Words.{blanks, spaced, ran, run_cmd-spaced}
use tvk_plugins.Machine.KubeEnv.{Connector, Accessor}
use tvk_plugins.Kube.{World}
use tvk_plugins.Cmd.Process.{Process, Ends, Splits}
use tvk_plugins.Cmd.PreflightCommands
use tvk_plugins.Cmd.PreflightCommands.{CmdOps, run_command, cleanup_command}
use tvk_plugins.Cmd.PreflightCommands.Validated.{
  checks_with, cleanup_with, prepare_run, prepare_cleanup, run_command-Splits,
  cleanup_command-Splits,
}
use tvk_plugins.Collector.Host.{Session}
use tvk_plugins.Cmd.CollectCommand
use tvk_plugins.Cmd.CollectCommand.{collect_command}
use tvk_plugins.Cmd.CollectCommand.Collected.{HasCollected, collect_command-HasCollected}
use tvk_plugins.Tests.Sample.{plain, kube, start}
use tvk_plugins.Tests.Trees.{path_objects-IsTree}
use tvk_plugins.Tests.Collecting.{machine, fresh}
use tvk_plugins.Tests.Commands.{
  collect_flags, collect_file, calls, preflight_flags, cleanup_inputs, numbers, run_inputs,
}

abbrev config_file : FileInfo
config_file = record { size = 7; is_regular = true; is_dir = false }

abbrev finished : Finished
finished = record { out = ""; exit_code = some 0; error = none }

abbrev noon : Time
noon = record { year = 2024; month = 3; day = 9; hour = 12; minute = 0; second = 5 }

abbrev desk : Machine
desk = record {
  State = Unit {0};
  environ = λ s. "HOME=/root" ∷ [];
  lookup_env = λ k s. if k == "KUBECONFIG" then some "~/config" else none;
  now = λ s. (noon, s);
  is_not_exist = λ e. true;
  expand_home = λ p s. (ok (if p == "~/config" then "/root/config" else p), s);
  run = λ c s. (finished, s);
  stat = λ p s. (
    if p == "/root/config" || p == "config" then ok config_file else err (failure "no such file"),
    s,
  );
  lstat = λ p s. (ok config_file, s);
  read_dir = λ p s. (ok [], s);
  read_file = λ p s. (ok "", s);
  open_read = λ p s. (ok tt, s);
  open_log = λ p fresh s. (ok tt, s);
  mkdir_all = λ p s. (ok tt, s);
  create = λ p s. (ok tt, s);
  copy_into = λ p q s. (ok tt, s);
  remove = λ p s. (ok tt, s);
  remove_all = λ p s. (ok tt, s);
}

-- Clients are told by the configuration that they are made from, a text.
abbrev connector : Connector desk
connector = record {
  Scheme = Unit {0};
  RestConfig = String;
  Clientset = String;
  HttpClient = String;
  Mapper = String;
  RuntimeClient = String;
  DiscoveryClient = String;
  get_config_or_die = λ s. (some "default", s);
  build_config = λ p s. (ok p, s);
  copy_config = λ c. c;
  without_warnings = λ c. c;
  new_clientset = λ c s. (ok c, s);
  http_client_for = λ c s. (ok c, s);
  new_mapper = λ c h s. (ok c, s);
  new_runtime_client = λ c scheme m s. (ok c, s);
  new_discovery_client = λ c s. (ok c, s);
}

abbrev version_command : List (ℕ × String)
version_command = (0, "version") ∷ (2, "--short") ∷ []

run_cmd-spaced_example :
    (run_cmd desk (spaced "helm" version_command) [] tt
      ≡ desk.run (ran desk [] "helm" version_command "helm" tt) tt)
    × ((n : ℕ)
        → run_cmd desk (blanks (suc n) (spaced "helm" version_command)) [] tt
          ≡ desk.run (ran desk [] "helm" version_command "" tt) tt)
run_cmd-spaced_example =
    run_cmd-spaced desk [] "helm" version_command
      (((cc), (search)), (((cc), (search)), (((cc), (search)), tt))) tt

abbrev clients : Accessor connector
clients = record {
  rest_config = "/root/config";
  set = "/root/config";
  client = "/root/config";
  discovery_client = "/root/config";
}

abbrev preflight_decoders : PreflightCommands.Decoders plain
preflight_decoders = record {
  quantities = numbers;
  unmarshal_strict = λ text ops. ok ops;
  is_level = λ level. level == "INFO";
}

abbrev preflight_line : PreflightCommands.CommandLine
preflight_line = record { flags = preflight_flags; input_file_name = "inputs.yaml" }

abbrev given_options : CmdOps plain
given_options = record { run = run_inputs; cleanup = cleanup_inputs }

abbrev at_start : Process desk (World kube)
at_start = record { machine = tt; world = start }

run_command-Splits_example :
    Splits desk
      (checks_with preflight_decoders connector tt preflight_line given_options kube at_start)
      start
      (prepare_run preflight_decoders connector tt preflight_line given_options tt)
      (run_command preflight_decoders connector tt kube preflight_line given_options at_start)
run_command-Splits_example =
    run_command-Splits preflight_decoders connector tt preflight_line given_options kube at_start

-- The preparation is done, and so this run does its checks.
run_prepared :
    (given : CmdOps plain) × ((prepare_run preflight_decoders connector tt preflight_line
        given_options tt).0
      ≡ done given)
unfolding tvk_plugins.Program.◌>>=◌ PreflightCommands.manage_preflight_inputs
    tvk_plugins.Cmd.PreflightInputs.◌>>=◌
    tvk_plugins.Cmd.PreflightInputs.override_preflight_file_inputs_from_cli
    PreflightCommands.setup_logger tvk_plugins.Machine.KubeEnv.init_kube_env
    tvk_plugins.Cmd.PreflightInputs.validate_run_options
run_prepared = (_, refl)

run_checks :
    (given : CmdOps plain) × ((run_command preflight_decoders connector tt kube preflight_line
        given_options at_start).1.world
      ≡ (checks_with preflight_decoders connector tt preflight_line given_options kube at_start
          given start).1)
run_checks = elim run_command-Splits_example [
  | inl (undone, _, _) ↦ absurd (undone run_prepared.0 run_prepared.1)
  | inr (given, _, _, world) ↦ (given, world)
]

cleanup_command-Splits_example :
    Splits desk
      (cleanup_with preflight_decoders connector tt preflight_line given_options kube at_start)
      start
      (prepare_cleanup preflight_decoders connector tt preflight_line given_options tt)
      (cleanup_command preflight_decoders connector tt kube preflight_line given_options at_start)
cleanup_command-Splits_example =
    cleanup_command-Splits preflight_decoders connector tt preflight_line given_options kube
      at_start

cleanup_prepared :
    (given : CmdOps plain) × ((prepare_cleanup preflight_decoders connector tt preflight_line
        given_options tt).0
      ≡ done given)
unfolding tvk_plugins.Program.◌>>=◌ PreflightCommands.manage_cleanup_inputs
    PreflightCommands.setup_logger tvk_plugins.Machine.KubeEnv.init_kube_env
    tvk_plugins.Cmd.PreflightInputs.override_cleanup_file_inputs_from_cli
    tvk_plugins.Cmd.PreflightInputs.validate_cleanup_fields
cleanup_prepared = (_, refl)

cleanup_cleans :
    (given : CmdOps plain) × ((cleanup_command preflight_decoders connector tt kube preflight_line
        given_options at_start).1.world
      ≡ (cleanup_with preflight_decoders connector tt preflight_line given_options kube at_start
          given start).1)
cleanup_cleans = elim cleanup_command-Splits_example [
  | inl (undone, _, _) ↦ absurd (undone cleanup_prepared.0 cleanup_prepared.1)
  | inr (given, _, _, world) ↦ (given, world)
]

abbrev collect_decoders : CollectCommand.Decoders
collect_decoders = record { unmarshal_strict = λ text i. ok i; is_level = λ level. level == "info" }

abbrev collect_line : CollectCommand.CommandLine
collect_line = record { flags = collect_flags; input_file_name = "" }

abbrev at_collection : Process desk (Session machine)
at_collection = record { machine = tt; world = fresh }

collect_command-HasCollected_example :
    Ends
      (HasCollected desk collect_decoders
        (λ s. calls)
        collect_line
        collect_file
        path_objects-IsTree
        machine
        at_collection)
      fresh
      (collect_command desk collect_decoders
        (λ s. calls)
        machine
        collect_line
        collect_file
        at_collection)
collect_command-HasCollected_example =
    collect_command-HasCollected desk collect_decoders (λ s. calls) collect_line collect_file
      path_objects-IsTree machine at_collection refl
