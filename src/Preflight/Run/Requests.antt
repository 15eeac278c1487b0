-- ===== src/Preflight/Run/Requests.antt =====
-- The requests that a run may send before its cleanup.
use tvk_plugins.Base.{String, ◌<>◌, ◌≡◌, ◌⊎◌}
use tvk_plugins.Kube.{
  Externals, Meta, Target, Pod, pod_object, pvc_object, namespace_object, request_object,
  snapshot_object, content_object, class_object, crd_object, Request, created, deleted, patched,
  executed, Cluster, Gvk,
}
use tvk_plugins.Action.{ok}
use tvk_plugins.Preflight.Options.{
  Run, backup_namespace_prefix, dns_utils, pod_capability_prefix, default_vsc_name_prefix,
}
use tvk_plugins.Preflight.Specs.{preflight_resource_labels, namespace_spec}

-- The cluster returns the objects that were asked for by name, and a created pod or claim keeps
-- its place and name.
pub record IsNaming {X : Externals} (K : Cluster X) : Type 0 where
  pub gets_pod :
      (ns name : String) (s : K.State) (p : Pod X)
      → (K.get_pod ns name s).0 ≡ ok p
      → (p.metadata.namespace ≡ ns) × (p.metadata.name ≡ name)
  pub gets_target :
      (g : Gvk) (ns name : String) (s : K.State) (t : Target)
      → (K.get_target g ns name s).0 ≡ ok t
      → (t.metadata.namespace ≡ ns) × (t.metadata.name ≡ name)

module _ {X : Externals} (o : Run X) (suffix : String) where
  -- The name ends in the run's suffix.
  abbrev pub IsNamed : Meta → Type 0
  IsNamed m = (prefix : String) × (m.name ≡ prefix <> suffix)

  -- The object lies in the run's namespace or in its backup namespace.
  abbrev pub IsPlaced : Meta → Type 0
  IsPlaced m = (m.namespace ≡ o.namespace) ⊎ (m.namespace ≡ backup_namespace_prefix <> suffix)

  -- The labels of the run, or those that the pod of a capability case gets.
  abbrev pub IsMarked : Meta → Type 0
  IsMarked m =
      (m.labels ≡ preflight_resource_labels suffix)
      ⊎ ((index : String) × (m.labels ≡ preflight_resource_labels (index <> suffix)))

  -- The run's own DNS pod or one of its capability pods.
  abbrev pub IsProbe : Meta → Type 0
  IsProbe m =
      (m.namespace ≡ o.namespace)
      × ((m.name ≡ dns_utils <> suffix)
          ⊎ ((index : String) × (m.name ≡ pod_capability_prefix <> (index <> suffix))))

  abbrev pub IsRunRequest : Request X → Type 0
  IsRunRequest (created (pod_object p)) =
      IsNamed p.metadata × IsPlaced p.metadata × IsMarked p.metadata
  IsRunRequest (created (pvc_object p)) = IsNamed p.metadata × IsPlaced p.metadata
  IsRunRequest (created (namespace_object m)) =
      m ≡ namespace_spec (backup_namespace_prefix <> suffix) suffix
  IsRunRequest (created (request_object s)) =
      IsNamed s.metadata
      × IsPlaced s.metadata
      × (s.metadata.labels ≡ preflight_resource_labels suffix)
  IsRunRequest (created (snapshot_object s)) =
      IsNamed s.metadata × (s.metadata.namespace ≡ o.namespace)
  IsRunRequest (created (content_object c)) =
      IsNamed c.metadata × (c.metadata.namespace ≡ o.namespace)
  IsRunRequest (created (class_object c)) =
      (drawn : String) × (c.metadata.name ≡ default_vsc_name_prefix <> drawn)
  IsRunRequest (created (crd_object _)) = Unit
  IsRunRequest (deleted t) = IsProbe t.metadata
  IsRunRequest (patched t) = IsProbe t.metadata
  IsRunRequest (executed _) = Unit

-- What the lemmas on the checks ask of a predicate on requests, with `Own` for the pods that a
-- check may delete: what a run sends satisfies it, and reading an own pod gives an own pod.
pub record Permits {X : Externals} (K : Cluster X) (o : Run X) (suffix : String)
    (Own : Meta → Type 0) (Q : Request X → Type 0) : Type 0 where
  pub requests : (q : Request X) → IsRunRequest o suffix q → Q q
  pub deletes : (t : Target) → Own t.metadata → Q (deleted t)
  pub patches : (t : Target) → Own t.metadata → Q (patched t)
  pub pods :
      (m : Meta) (s : K.State) (p : Pod X)
      → (K.get_pod m.namespace m.name s).0 ≡ ok p
      → IsProbe o suffix m
      → Own p.metadata
  pub targets :
      (g : Gvk) (m : Meta) (s : K.State) (t : Target)
      → (K.get_target g m.namespace m.name s).0 ≡ ok t
      → Own m
      → Own t.metadata
