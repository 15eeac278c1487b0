-- ===== src/Cmd/CollectCommand/Collected.antt =====
-- What the command of the log collector does, from its flags to its changes.
use tvk_plugins.Base.{
  String, Bool, true, false, if◌then◌else◌, ◌≡◌, refl, sym, ap, ◌∙◌, inr, [], All,
}
use tvk_plugins.Program.{
  Outcome, done, exited, of_result, fatal, pure, lift, or_exit, >>=-eq-done, done-injective,
}
use tvk_plugins.Machine.{Machine, Time}
use tvk_plugins.Collector.Host.{Objects, Host, Session}
use tvk_plugins.Collector.Redaction.Redacted.{IsTree}
use tvk_plugins.Collector.Gather.Run.Safety.{IsSafeChange, collect_logs_and_dump-IsSafeChange}
use tvk_plugins.Cmd.Gvks.{Parsed, parsed}
use tvk_plugins.Cmd.Gvks
use tvk_plugins.Cmd.CollectInputs.{Inputs, Calls, is_contradictory}
use tvk_plugins.Cmd.CollectInputs.Overridden.{override_file_inputs_from_cli-namespaces}
use tvk_plugins.Cmd.Process.{Process, on_world, Ends, on_machine-Ends, or_exit-eq-done}
use tvk_plugins.Cmd.CollectCommand.{
  Decoders, CommandLine, outcome_of, output_dir_at, options_of, overridden, manage_file_inputs,
  checked, pre_run, start_collection, collect_command,
}

outcome_of-eq-done : {A : Type 0} (o : Parsed A) (a : A) → outcome_of o ≡ done a → o ≡ parsed a
outcome_of-eq-done (parsed b) a h = cc
outcome_of-eq-done (Gvks.failed e) a h = cc h
outcome_of-eq-done Gvks.panicked a h = cc h

module _ (M : Machine) (D : Decoders) (calls : M.State → Calls) (c : CommandLine) (i : Inputs) where
  manage_file_inputs-namespaces :
      (s : M.State) (given : Inputs)
      → (manage_file_inputs M D calls c i s).0 ≡ done given
      → given.namespaces ≡ c.flags.namespaces
  unfolding manage_file_inputs overridden
  manage_file_inputs-namespaces s given h =
      let (read, _, h) = >>=-eq-done _ _ s given h in
      (override_file_inputs_from_cli-namespaces (calls _) c.flags read given
        (outcome_of-eq-done _ given h)).0

  checked-is_level :
      (given : Inputs) (u : Unit {0})
      → checked M D calls given ≡ done u
      → D.is_level given.log_level ≡ true
  unfolding checked
  checked-is_level given u = by_level (D.is_level given.log_level)
    where
      by_level :
          (b : Bool)
          → (if b then if is_contradictory given then exited else done tt else exited) ≡ done u
          → b ≡ true
      by_level true h = refl
      by_level false h = cc h

  pre_run-eq-done :
      (s : M.State) (given : Inputs) (dir : String)
      → (pre_run M D calls c i s).0 ≡ done (given, dir)
      → ((manage_file_inputs M D calls c i s).0 ≡ done given)
        × (D.is_level given.log_level ≡ true)
        × (t : Time) × (dir ≡ output_dir_at t)
  unfolding pre_run pure lift
  pre_run-eq-done s given dir h =
      let (g, e, h) = >>=-eq-done _ _ s (given, dir) h in
      let (u, k, h) = >>=-eq-done _ _ _ (given, dir) h in
      let (t, _, h) = >>=-eq-done _ _ _ (given, dir) h in
      let same : g ≡ given = ap (λ (r : Inputs × String). r.0) (done-injective _ (given, dir) h) in
      (
        or_exit-eq-done _ s g e ∙ ap (λ (x : Inputs). done x) same,
        ap (λ (x : Inputs). D.is_level x.log_level) (sym same) ∙ checked-is_level g u k,
        t,
        sym (ap (λ (r : Inputs × String). r.1) (done-injective _ (given, dir) h)),
      )

  module _ {O : Objects} (T : IsTree O) (H : Host O) (p : Process M (Session H)) where
    -- The inputs were merged, with a level that is known and the namespaces of the flag; the outcome and
    -- the session are those of a collection with them, in a directory that is named after a time; and
    -- each of its changes is safe.
    abbrev pub HasCollected : Outcome (Unit {0}) × Process M (Session H) → Type 0
    HasCollected r =
        (given : Inputs) × (t : Time) × ((manage_file_inputs M D calls c i p.machine).0
          ≡ done given)
        × (D.is_level given.log_level ≡ true)
        × (given.namespaces ≡ c.flags.namespaces)
        × (r.0 ≡ fatal (of_result (start_collection M D calls H given (output_dir_at t) p.world).0))
        × (r.1.world ≡ (start_collection M D calls H given (output_dir_at t) p.world).1)
        × All (IsSafeChange T (options_of given (output_dir_at t))) r.1.world.done

    collection-HasCollected :
        p.world.done ≡ []
        → (given : Inputs) (dir : String) → (pre_run M D calls c i p.machine).0 ≡ done (given, dir)
        → (s : M.State)
        → HasCollected
            (or_exit (on_world (start_collection M D calls H given dir)) (record p { machine = s }))
    unfolding or_exit on_world start_collection
    collection-HasCollected fresh given dir h s =
        let (managed, level, t, named) = pre_run-eq-done p.machine given dir h in
        (
          given,
          t,
          managed,
          level,
          manage_file_inputs-namespaces p.machine given managed,
          (rw named refl),
          (rw named refl),
          rw named (
              collect_logs_and_dump-IsSafeChange T (options_of given (output_dir_at t)) H
                (record p.world { namespaces = given.namespaces }) fresh),
        )

    -- From a session without changes, and where the helpers of unstructured objects keep their
    -- promises: the command either ends with a status other than 0 before it collects anything, or it
    -- collects in the namespaces of the flag with merged inputs whose log level is known, into a
    -- directory named after a time, and all its changes are safe.
    pub collect_command-HasCollected :
        p.world.done ≡ [] → Ends HasCollected p.world (collect_command M D calls H c i p)
    unfolding collect_command
    collect_command-HasCollected fresh =
        on_machine-Ends HasCollected p.world _ _ p refl
          λ r got. inr (collection-HasCollected fresh r.0 r.1 got _)
