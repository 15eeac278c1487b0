-- ===== src/Cmd/PreflightInputs/Validated.antt =====
-- Which inputs the preflight plugin runs on.
use Prim.Native.String.{len}
use tvk_plugins.Base.{String, false, ◌≡◌, ◌≢◌, ◌↔◌, ◌⊎◌, inr, arith, eq_iff}
use tvk_plugins.Action.{ok}
use tvk_plugins.Kube.{Externals, Cluster, World}
use tvk_plugins.Preflight.Suffix.{create_resource_name_suffix}
use tvk_plugins.Preflight.Suffix.Drawn.{IsBounded, create_resource_name_suffix-len}
use tvk_plugins.Cmd.PreflightInputs.{
  Flags, Common, RunInputs, CleanupInputs, Quantities, cpu_of, memory_of, validate_run_options,
  validate_cleanup_fields, update_common_inputs_from_cli,
}

-- The inputs of a run are accepted exactly when there are a namespace and a storage class, an image
-- pull secret comes with a registry, and no request is above its limit.
pub validate_run_options-eq-ok :
    {X : Externals} (Q : Quantities X) (r : RunInputs X)
    → (validate_run_options Q r ≡ ok tt) ↔ (
        (r.common.namespace ≢ "")
        × (r.storage_class ≢ "")
        × (r.image_pull_secret ≢ "" → r.local_registry ≢ "")
        × (Q.exceeds (memory_of Q r.resources.requests) (memory_of Q r.resources.limits) ≡ false)
        × (Q.exceeds_float (cpu_of Q r.resources.requests) (cpu_of Q r.resources.limits) ≡ false))
unfolding validate_run_options
validate_run_options-eq-ok Q r = ground (
  arith,
  eq_iff r.common.namespace "",
  eq_iff r.storage_class "",
  eq_iff r.image_pull_secret "",
  eq_iff r.local_registry "",
)

-- The inputs of a cleanup are accepted exactly when there is a namespace, and the uid is left out or
-- six bytes long.
pub validate_cleanup_fields-eq-ok :
    (c : CleanupInputs)
    → (validate_cleanup_fields c ≡ ok tt)
      ↔ ((c.common.namespace ≢ "") × ((c.uid ≡ "") ⊎ (len c.uid ≡ 6)))
unfolding validate_cleanup_fields
validate_cleanup_fields-eq-ok c = (
  λ h. ground (arith, eq_iff c.common.namespace "", eq_iff c.uid ""),
  λ h. ground (arith, eq_iff c.common.namespace "", eq_iff c.uid ""),
)

-- Where random numbers lie below their bound: the suffix that a run draws is accepted as the uid of a
-- cleanup, in any namespace.
pub create_resource_name_suffix-validates :
    {X : Externals} (K : Cluster X) (bounded : IsBounded K) (w : World K) (s : String)
    (c : CleanupInputs)
    → (create_resource_name_suffix K w).0 ≡ ok s
    → c.common.namespace ≢ ""
    → validate_cleanup_fields (record c { uid = s }) ≡ ok tt
create_resource_name_suffix-validates K bounded w s c h ne =
    (validate_cleanup_fields-eq-ok (record c { uid = s })).1
      (ne, inr (create_resource_name_suffix-len K bounded w s h).1)

-- Whether a run is in a cluster never depends on the config file alone: where the flag is not set to
-- true, the run is not in a cluster, whatever the file says.
pub update_common_inputs_from_cli-in_cluster :
    (f : Flags) (c : Common)
    → f.common.in_cluster ≡ false
    → (update_common_inputs_from_cli f c).in_cluster ≡ false
unfolding update_common_inputs_from_cli
update_common_inputs_from_cli-in_cluster f c h = ground arith
