-- ===== src/Machine/KubeEnv.antt =====
-- The clients of a cluster: internal/kube_helper.go, `InitKubeEnv` of tools/preflight/helper.go and
-- `InitializeKubeClients` of tools/log-collector/log_collector.go. What the constructors of
-- client-go, controller-runtime and discovery answer is a parameter, and so is the filled scheme.
pub mod Chosen
use tvk_plugins.Base.{
  ℕ, String, ◌==◌, ◌<>◌, Bool, true, false, if◌then◌else◌, Option, none, some, nat_eq,
}
use tvk_plugins.Action.{Error, Result, ok, err, failure, message, Action}
use tvk_plugins.Program.{
  Outcome, Program, done, failed, exited, pure, fail, of_action, lift, attempt, ◌>>=◌, ◌>>◌,
}
use tvk_plugins.Machine.{FileInfo, Machine}
use tvk_plugins.Paths.{dir}

pub record Connector (M : Machine) : Type 1 where
  pub Scheme : Type 0
  pub RestConfig : Type 0
  pub Clientset : Type 0
  pub HttpClient : Type 0
  pub Mapper : Type 0
  pub RuntimeClient : Type 0
  pub DiscoveryClient : Type 0
  -- `config.GetConfigOrDie`: nothing where it ends the process
  pub get_config_or_die : M.State → Option RestConfig × M.State
  pub build_config : String → Action M.State RestConfig
  -- `rest.CopyConfig`, and the assignment of `rest.NoWarnings` to the copy
  pub copy_config : RestConfig → RestConfig
  pub without_warnings : RestConfig → RestConfig
  pub new_clientset : RestConfig → Action M.State Clientset
  pub http_client_for : RestConfig → Action M.State HttpClient
  pub new_mapper : RestConfig → HttpClient → Action M.State Mapper
  pub new_runtime_client : RestConfig → Scheme → Mapper → Action M.State RuntimeClient
  pub new_discovery_client : RestConfig → Action M.State DiscoveryClient

pub record Accessor {M : Machine} (C : Connector M) : Type 0 where
  pub rest_config : C.RestConfig
  pub set : C.Clientset
  pub client : C.RuntimeClient
  pub discovery_client : C.DiscoveryClient

module _ {M : Machine} (C : Connector M) where
  -- `checkFileExists`: any other error of `os.Stat` passes.
  abbrev existence : Result FileInfo → Result (Unit {0})
  existence (ok info) = ok tt
  existence (err e) = if M.is_not_exist e then err e else ok tt

  unfoldable pub check_file_exists : String → Action M.State (Unit {0})
  check_file_exists path s = let (r, s') = M.stat path s in (existence r, s')

  unfoldable pub normalize_file : String → Program M.State String
  unfolding check_file_exists
  normalize_file path = do
    expanded ← of_action (M.expand_home path)
    of_action (check_file_exists expanded)
    pure expanded

  unfoldable pub env_or_fail : Option String → Program M.State String
  unfolding normalize_file
  env_or_fail (some path) = normalize_file path
  env_or_fail none = fail (
      failure
        "failed to fetch kubeconfig file from specified 'kubeconfig' path and 'KUBECONFIG' env variable")

  unfoldable pub new_config_from_commandline : String → Program M.State String
  unfolding normalize_file env_or_fail
  new_config_from_commandline kube_config s =
      if kube_config == ""
      then env_or_fail (M.lookup_env "KUBECONFIG" s) s
      else normalize_file kube_config s

  abbrev pub config_or_exit : Option C.RestConfig → Outcome C.RestConfig
  config_or_exit none = exited
  config_or_exit (some c) = done c

  unfoldable pub default_config : Program M.State C.RestConfig
  default_config s = let (o, s') = C.get_config_or_die s in (config_or_exit o, s')

  -- A configuration beside an error. The default is read in both cases where the file is of no use.
  abbrev pub Loaded : Type 0
  Loaded = Option C.RestConfig × Option Error

  abbrev pub built : Result C.RestConfig → Loaded
  built (ok c) = (some c, none)
  built (err e) = (none, some e)

  unfoldable pub with_default : Option Error → Program M.State Loaded
  unfolding default_config
  with_default e = do c ← default_config; pure (some c, e)

  unfoldable pub load_by_info : String → Result FileInfo → Program M.State Loaded
  unfolding with_default
  load_by_info path (err e) = with_default (some e)
  load_by_info path (ok info) =
      if nat_eq info.size 0
      then with_default none
      else (do r ← attempt (C.build_config path); pure (built r))

  unfoldable pub load_kube_config_or_die : String → Program M.State Loaded
  unfolding load_by_info with_default
  load_kube_config_or_die kube_config =
      if kube_config == ""
      then with_default none
      else (do r ← attempt (M.stat kube_config); load_by_info kube_config r)

  -- A nil configuration without an error does not come from `LoadKubeConfigOrDie`.
  unfoldable pub usable : Loaded → Outcome C.RestConfig
  usable (c, some e) = failed (failure ("failed to create rest config. " <> message e))
  usable (some c, none) = done (C.without_warnings (C.copy_config c))
  usable (none, none) = failed (failure "")

  -- The configuration that `NewAccessor` works with.
  unfoldable pub rest_config_for : String → Option C.RestConfig → Program M.State C.RestConfig
  unfolding load_kube_config_or_die usable
  rest_config_for kube_config (some c) = pure c
  rest_config_for kube_config none = do l ← load_kube_config_or_die kube_config; lift (usable l)

  unfoldable pub new_accessor :
      String → Option C.RestConfig → C.Scheme → Program M.State (Accessor C)
  unfolding rest_config_for
  new_accessor kube_config rest_config scheme = do
    c ← rest_config_for kube_config rest_config
    set ← of_action (C.new_clientset c)
    http ← of_action (C.http_client_for c)
    mapper ← of_action (C.new_mapper c http)
    client ← of_action (C.new_runtime_client c scheme mapper)
    discovery ← of_action (C.new_discovery_client c)
    pure (record { rest_config = c; set = set; client = client; discovery_client = discovery })

  -- The path is looked for only where no configuration is given.
  unfoldable pub path_for : String → Option C.RestConfig → Program M.State String
  unfolding new_config_from_commandline
  path_for kube_config (some c) = pure ""
  path_for kube_config none = new_config_from_commandline kube_config

  unfoldable pub new_env : String → Option C.RestConfig → C.Scheme → Program M.State (Accessor C)
  unfolding path_for new_accessor
  new_env kube_config rest_config scheme = do
    path ← path_for kube_config rest_config
    new_accessor path rest_config scheme

  -- `GetKubeconfigPath`; the default path is that of `KubeConfigDefault`.
  unfoldable pub get_kubeconfig_path : String → Bool → M.State → String
  get_kubeconfig_path default use_default s = elim (M.lookup_env "KUBECONFIG" s) [
    | some path ↦ path
    | none ↦ if use_default then default else ""
  ]

  unfoldable pub optional_config : String → Program M.State (Option C.RestConfig)
  unfolding default_config
  optional_config kube_config =
      if kube_config == "" then (do c ← default_config; pure (some c)) else pure none

  -- `InitKubeEnv`; the clients that `NewEnv` returns are never nil.
  unfoldable pub init_kube_env : String → C.Scheme → Program M.State (Accessor C)
  unfolding optional_config new_env
  init_kube_env kube_config scheme = do
    config ← optional_config kube_config
    new_env kube_config config scheme

  -- `InitializeKubeClients`
  unfoldable pub initialize_kube_clients : String → C.Scheme → Program M.State (Accessor C)
  unfolding new_env
  initialize_kube_clients kube_config scheme = new_env kube_config none scheme

module _ (M : Machine) where
  -- `CopyFile`: the handles are closed at the end.
  unfoldable pub copy_file : String → String → Program M.State (Unit {0})
  copy_file source destination = do
    of_action (M.open_read source)
    of_action (M.mkdir_all (dir destination))
    of_action (M.create destination)
    of_action (M.copy_into destination source)
