-- ===== src/Tests/Shelf.antt =====
-- A cluster whose state is the list of its objects, from which a delete takes one, and a cleanup that
-- leaves nothing on it.
use tvk_plugins.Base.{
  String, Bool, true, false, not, ◌&&◌, ◌==◌, eq_iff, ◌≡◌, refl, ◌∙◌, inl, inr, none, some, List,
  [], ◌∷◌, ◌++◌, ◌⊎◌, ap, if◌then◌else◌, Any, length,
}
use tvk_plugins.Action.{ok, ok-injective}
use tvk_plugins.Kube.{Labels, Gvk, Target, Cluster, World}
use tvk_plugins.Preflight.SnapshotClasses.Chosen.{filter}
use tvk_plugins.Preflight.Cleanup.{Cleanup, selector, cleanup_preflight_resources}
use tvk_plugins.Preflight.Cleanup.Store.{Address, IsStore}
use tvk_plugins.Preflight.Cleanup.Gone.{cleanup_preflight_resources-gone}
use tvk_plugins.Tests.Sample.{plain, kube, once, fits, store, get_from, namespaces}

abbrev same : Target → Target → Bool
same t u =
    t.gvk.kind == u.gvk.kind
    && t.metadata.namespace == u.metadata.namespace
    && t.metadata.name == u.metadata.name

abbrev listed : Gvk → Labels → String → Target → Bool
listed g labels ns t =
    fits labels t.metadata.labels && t.metadata.namespace == ns && t.gvk.kind == g.kind

abbrev listed_namespace : Labels → Target → Bool
listed_namespace labels t = fits labels t.metadata.labels && t.gvk.kind == "Namespace"

abbrev pub shelf : Cluster plain
shelf = record {
  State = List Target;
  look_path = λ name s. (ok name, s);
  run_command = λ name args s. ((kube.run_command name args 0).0, s);
  rand_int = λ n s. ((kube.rand_int n 0).0, s);
  server_version = λ s. ((kube.server_version 0).0, s);
  server_groups = λ s. ((kube.server_groups 0).0, s);
  server_resources = λ group s. ((kube.server_resources group 0).0, s);
  get_namespace = λ name s. ((kube.get_namespace name 0).0, s);
  review_access = λ verb ns gvr s. ((kube.review_access verb ns gvr 0).0, s);
  get_crd = λ name s. (ok name, s);
  get_provisioner = λ name s. ((kube.get_provisioner name 0).0, s);
  list_snapshot_classes = λ version s. (ok [], s);
  get_snapshot_class = λ version name s. ((kube.get_snapshot_class version name 0).0, s);
  get_pod = λ ns name s. ((kube.get_pod ns name 0).0, s);
  get_snapshot = λ ns name s. ((kube.get_snapshot ns name 0).0, s);
  get_content = λ name s. ((kube.get_content name 0).0, s);
  get_ready = λ gvk ns name s. (ok (ok (some true)), s);
  get_target = λ gvk ns name s. (get_from s ns name, s);
  list_targets = λ gvk labels ns s. (ok (filter (listed gvk labels ns) s), s);
  list_namespaces = λ labels s. (ok (filter (listed_namespace labels) s), s);
  create_pod = λ ns p s. (ok p, s);
  create_pvc = λ ns p s. (ok p, s);
  create = λ object s. (ok tt, s);
  delete = λ t grace s. (ok tt, filter (λ u. not (same t u)) s);
  patch = λ t body s. (ok tt, s);
  stream = λ op s. ((kube.stream op 0).0, s);
  timed_out = λ s. false;
  backoff = λ b condition s. let (r, s') = condition s in (once r, s');
}

abbrev IsAt : Address → Target → Type 0
IsAt a t =
    (t.gvk.kind ≡ a.gvk.kind) × (t.metadata.namespace ≡ a.namespace) × (t.metadata.name ≡ a.name)

abbrev IsLabelled : Address → Labels → Target → Type 0
IsLabelled a labels t = IsAt a t × (fits labels t.metadata.labels ≡ true)

module _ (P Q : Target → Type 0) (p : Target → Bool) where
  Any-unfiltered : (s : List Target) → Any P (filter p s) → Any P s
  Any-unfiltered [] h = h
  Any-unfiltered (t ∷ s) h = by_test (Any-unfiltered s) (p t) h
    where
      by_test :
          (Any P (filter p s) → Any P s)
          → (b : Bool) → Any P (if b then t ∷ filter p s else filter p s)
          → P t ⊎ Any P s
      by_test rest true (inl here) = inl here
      by_test rest true (inr later) = inr (rest later)
      by_test rest false later = inr (rest later)

  Any-filter :
      ((t : Target) → P t → (p t ≡ true) × Q t) → (s : List Target) → Any P s → Any Q (filter p s)
  Any-filter fits [] h = h
  Any-filter fits (t ∷ s) (inl here) = rw ((fits t here).0) (inl (fits t here).1)
  Any-filter fits (t ∷ s) (inr later) = by_test (p t) (Any-filter fits s later)
    where
      by_test : (b : Bool) → Any Q (filter p s) → Any Q (if b then t ∷ filter p s else filter p s)
      by_test true h = inr h
      by_test false h = h

  Any-none : ((t : Target) → P t → p t ≡ false) → (s : List Target) → ¬ Any P (filter p s)
  Any-none out [] h = h
  Any-none out (t ∷ s) h = by_test (Any-none out s) (p t) refl h
    where
      by_test :
          ¬ Any P (filter p s)
          → (b : Bool) → p t ≡ b
          → Any P (if b then t ∷ filter p s else filter p s)
          → ⊥
      by_test rest true e (inl here) = cc (e, out t here)
      by_test rest true e (inr later) = rest later
      by_test rest false e later = rest later

same-eq : (a : Address) (t u : Target) → IsAt a t → IsAt a u → same t u ≡ true
same-eq a t u (k, n, m) (k', n', m') =
    rw
      (
        (eq_iff t.gvk.kind u.gvk.kind).1 (cc (k, k')),
        (eq_iff t.metadata.namespace u.metadata.namespace).1 (cc (n, n')),
        (eq_iff t.metadata.name u.metadata.name).1 (cc (m, m')),
      )
      refl

listed-eq :
    (a : Address) (g : Gvk) (labels : Labels) (ns : String) (t : Target)
    → a.gvk ≡ g
    → a.namespace ≡ ns
    → IsLabelled a labels t
    → listed g labels ns t ≡ true
listed-eq a g labels ns t same_gvk place ((k, n, m), fit) =
    rw
      (
        fit,
        (eq_iff t.metadata.namespace ns).1 (n ∙ place),
        (eq_iff t.gvk.kind g.kind).1 (cc (k, same_gvk)),
      )
      refl

listed_namespace-eq :
    (a : Address) (labels : Labels) (t : Target)
    → a.gvk.kind ≡ "Namespace"
    → IsLabelled a labels t
    → listed_namespace labels t ≡ true
listed_namespace-eq a labels t kind ((k, n, m), fit) =
    rw (fit, (eq_iff t.gvk.kind "Namespace").1 (k ∙ kind)) refl

pub shelf-IsStore : IsStore shelf
shelf-IsStore = record {
  IsThere = λ a labels s. Any (IsLabelled a labels) s;
  IsAt = IsAt;
  named = λ a t at. at.2;
  deletes = λ a t grace s at went labels.
      Any-none (IsLabelled a labels) (IsAt a) (λ u. not (same t u))
        (λ u (here, _). ap not (same-eq a t u at here)) s;
  lists = λ a g labels ns s ts answer same_gvk place there. rw (← ok-injective _ ts answer) (
      Any-filter (IsLabelled a labels) (IsAt a) (listed g labels ns)
        (λ u here. (listed-eq a g labels ns u same_gvk place here, here.0)) s there);
  lists_namespaces = λ a labels s ts answer kind there. rw (← ok-injective _ ts answer) (
      Any-filter (IsLabelled a labels) (IsAt a) (listed_namespace labels)
        (λ u here. (listed_namespace-eq a labels u kind here, here.0)) s there);
  delete_creates =
      λ a labels t grace s. Any-unfiltered (IsLabelled a labels) (IsAt a) (λ u. not (same t u)) s;
  patch_creates = λ a labels t body s there. there;
  get_creates = λ a labels g ns name s there. there;
  list_creates = λ a labels g wanted ns s there. there;
  list_namespaces_creates = λ a labels wanted s there. there;
}

abbrev cleanup : Cleanup
cleanup = record { uid = "abcdef"; namespace = "tvk" }

abbrev pub full : World shelf
full = record {
  cluster = store ++ namespaces;
  trace = [];
  report = [];
  snapshot_class = "";
  vol_snap_class = "";
}

abbrev pod : Address
pod = record {
  gvk = record { group = ""; version = "v1"; kind = "Pod" };
  namespace = "tvk";
  name = "dnsutils-abcdef";
}

-- The pod and the backup namespace of the run are gone, and the rest is there.
cleaned_up :
    ((cleanup_preflight_resources shelf cleanup full).0 ≡ ok tt)
    × (length (cleanup_preflight_resources shelf cleanup full).1.cluster ≡ 3)
unfolding cleanup_preflight_resources tvk_plugins.Action.◌>>=◌
    tvk_plugins.Preflight.Cleanup.cleanup_gvks tvk_plugins.Kube.ask
    tvk_plugins.Preflight.Cleanup.sweep selector tvk_plugins.Base.Dict.insert
    tvk_plugins.Base.Dict.lookup tvk_plugins.Preflight.Specs.preflight_resource_labels
    tvk_plugins.Preflight.Cleanup.delete_namespace tvk_plugins.Preflight.Cleanup.finish_cleanup
    tvk_plugins.Preflight.Cleanup.sweep_namespaces
    tvk_plugins.Preflight.Cleanup.delete_backup_namespaces
    tvk_plugins.Preflight.Delete.delete_k8s_resource tvk_plugins.Kube.send
    tvk_plugins.Preflight.Delete.remove_finalizer tvk_plugins.Preflight.Cleanup.delete_if_backup
cleaned_up = (refl, refl)

cleanup_preflight_resources-gone_example :
    ¬ shelf-IsStore.IsThere pod
      (selector cleanup)
      (cleanup_preflight_resources shelf cleanup full).1.cluster
unfolding tvk_plugins.Preflight.Cleanup.gvks_of_versions tvk_plugins.Preflight.Cleanup.versions_in
    tvk_plugins.Preflight.Cleanup.delete_namespace
cleanup_preflight_resources-gone_example =
    cleanup_preflight_resources-gone shelf shelf-IsStore cleanup pod full cleaned_up.0
      (inl (inr (inr (inl refl)), refl))
