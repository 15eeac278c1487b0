-- ===== src/Machine/KubeEnv/Chosen.antt =====
-- Which configuration `NewEnv` connects with.
use tvk_plugins.Base.{String, ◌==◌, ◌≡◌, if◌then◌else◌, Option, some, ◌⊎◌}
use tvk_plugins.Action.{ok}
use tvk_plugins.Machine.{FileInfo, Machine}
use tvk_plugins.Machine.KubeEnv.{Connector}

module _ {M : Machine} (C : Connector M) where
  -- The path that is named: by the argument, or else by the environment.
  abbrev pub named : String → M.State → Option String
  named kube_config s = if kube_config == "" then M.lookup_env "KUBECONFIG" s else some kube_config

  -- Calls that have answered so, at some state.
  abbrev pub IsExpanded : String → String → Type 0
  IsExpanded p q = (t : M.State) × ((M.expand_home p t).0 ≡ ok q)

  abbrev pub IsDefault : C.RestConfig → Type 0
  IsDefault c = (t : M.State) × ((C.get_config_or_die t).0 ≡ some c)

  abbrev pub IsBuilt : String → C.RestConfig → Type 0
  IsBuilt p c = (t : M.State) × ((C.build_config p t).0 ≡ ok c)

  abbrev pub IsFile : String → FileInfo → Type 0
  IsFile p info = (t : M.State) × ((M.stat p t).0 ≡ ok info)

  -- The default where there is no path or the file is empty, and else what the file holds.
  abbrev pub IsFrom : String → C.RestConfig → Type 0
  IsFrom p c =
      ((p ≡ "") × IsDefault c)
      ⊎ ((info : FileInfo) × IsFile p info × (((info.size ≡ 0) × IsDefault c) ⊎ IsBuilt p c))
