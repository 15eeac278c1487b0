-- ===== src/Cmd/PreflightCommands/Validated.antt =====
-- What a command of the preflight plugin does on the machine, and when it goes on to the cluster.
use tvk_plugins.Base.{false, ◌≡◌, refl}
use tvk_plugins.Action.{Action}
use tvk_plugins.Program.{Program, of_result, of_action, or_exit, lift, pure, ◌>>=◌, ◌>>◌}
use tvk_plugins.Machine.{Machine}
use tvk_plugins.Machine.KubeEnv.{Connector, init_kube_env}
use tvk_plugins.Kube.{Externals, Cluster, World}
use tvk_plugins.Preflight.Run.{perform_preflight_checks}
use tvk_plugins.Preflight.Cleanup.{cleanup_preflight_resources}
use tvk_plugins.Cmd.Process.{
  Process, on_world, after_preparing, on_machine-after_preparing, Splits, after_preparing-Splits,
}
use tvk_plugins.Cmd.PreflightInputs.{validate_run_options, validate_cleanup_fields}
use tvk_plugins.Cmd.PreflightCommands.{
  CmdOps, Decoders, CommandLine, manage_preflight_inputs, manage_cleanup_inputs, setup_logger,
  run_of, cleanup_of, start_checks, run_command, cleanup_command,
}

module _ {M : Machine} {X : Externals} (D : Decoders X) (C : Connector M) (scheme : C.Scheme)
    (c : CommandLine) (ops : CmdOps X) where
  -- What `run` does before its checks: the inputs, the log file, the clients, the tests on the inputs. An
  -- error of one of these ends the process.
  abbrev pub prepare_run : Program M.State (CmdOps X)
  prepare_run = do
    given ← or_exit (manage_preflight_inputs M D c ops)
    made ← or_exit (setup_logger M D "preflight" given.run.common.log_level)
    or_exit (of_action (M.open_log made.0 false))
    or_exit (init_kube_env C given.run.common.kubeconfig scheme)
    or_exit (lift (of_result (validate_run_options D.quantities given.run)))
    pure given

  -- The same of `cleanup`, whose errors are returned but for that of the log file.
  abbrev pub prepare_cleanup : Program M.State (CmdOps X)
  prepare_cleanup = do
    given ← manage_cleanup_inputs M D c ops
    made ← setup_logger M D "preflight_cleanup" given.cleanup.common.log_level
    init_kube_env C given.cleanup.common.kubeconfig scheme
    or_exit (of_action (M.open_log made.0 false))
    lift (of_result (validate_cleanup_fields given.cleanup))
    pure given

  module _ (K : Cluster X) (p : Process M (World K)) where
    -- The checks of a run with the merged inputs.
    abbrev pub checks_with : CmdOps X → Action (World K) (Unit {0})
    checks_with given w =
        perform_preflight_checks K (run_of given.run)
          (record w { snapshot_class = given.run.snapshot_class })

    abbrev pub cleanup_with : CmdOps X → Action (World K) (Unit {0})
    cleanup_with given = cleanup_preflight_resources K (cleanup_of given.cleanup)

    -- Each step on the machine is one of the preparation, in its order.
    run_command-after_preparing :
        run_command D C scheme K c ops p
        ≡ after_preparing M checks_with p.world (prepare_run p.machine)
    unfolding run_command on_world start_checks pure
    run_command-after_preparing =
        on_machine-after_preparing M checks_with p.world _ _
          (λ given _.
            on_machine-after_preparing M checks_with p.world _ _
              (λ made _.
                on_machine-after_preparing M checks_with p.world _ _
                  (λ _ _.
                    on_machine-after_preparing M checks_with p.world _ _
                      (λ _ _.
                        on_machine-after_preparing M checks_with p.world _ _ (λ _ _. refl) _ _)
                      _ _)
                  _ _)
              _ _)
          _ p.machine

    cleanup_command-after_preparing :
        cleanup_command D C scheme K c ops p
        ≡ after_preparing M cleanup_with p.world (prepare_cleanup p.machine)
    unfolding cleanup_command on_world pure
    cleanup_command-after_preparing =
        on_machine-after_preparing M cleanup_with p.world _ _
          (λ given _.
            on_machine-after_preparing M cleanup_with p.world _ _
              (λ made _.
                on_machine-after_preparing M cleanup_with p.world _ _
                  (λ _ _.
                    on_machine-after_preparing M cleanup_with p.world _ _
                      (λ _ _.
                        on_machine-after_preparing M cleanup_with p.world _ _ (λ _ _. refl) _ _)
                      _ _)
                  _ _)
              _ _)
          _ p.machine

    -- Either a step of the preparation of `run` (merging the inputs, the log file, the clients, the tests on
    -- the inputs) is not done, and then the command ends with a status other than 0 and sends, reports and
    -- changes nothing on the cluster; or all are done, and then its outcome and all that it does to the
    -- cluster are those of the checks of a run with the merged inputs.
    pub run_command-Splits :
        Splits M checks_with p.world (prepare_run p.machine) (run_command D C scheme K c ops p)
    run_command-Splits = rw run_command-after_preparing (
        after_preparing-Splits M checks_with p.world (prepare_run p.machine).0
          (prepare_run p.machine).1)

    -- Either a step of the preparation of `cleanup` is not done, and then the command ends with a status
    -- other than 0 and leaves the cluster alone; or all are done, and then its outcome and all that it
    -- does to the cluster are those of the cleanup of the merged uid and namespace.
    pub cleanup_command-Splits :
        Splits M cleanup_with p.world
          (prepare_cleanup p.machine)
          (cleanup_command D C scheme K c ops p)
    cleanup_command-Splits = rw cleanup_command-after_preparing (
        after_preparing-Splits M cleanup_with p.world (prepare_cleanup p.machine).0
          (prepare_cleanup p.machine).1)
