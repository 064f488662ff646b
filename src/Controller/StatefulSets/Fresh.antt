-- ===== src/Controller/StatefulSets/Fresh.antt =====
-- The StatefulSet after `EnsureHAProxyStatefulSet` (internal/controller/statefulset.go).
use mathlib.Core.List.{Mem, mem-cons_self, mem-cons_of_mem}
use k8s_glb_operator.Base.{
  ℕ, ◌≡◌, ◌≢◌, refl, ap, String, ◌<>◌, Option, none, some, List, [], ◌∷◌, map, All, string_eq,
  arith,
}
use k8s_glb_operator.Base.GoMap.{lookup}
use k8s_glb_operator.Api.{
  NamespacedName, ObjectMeta, OwnerReference, Labels, error_of, ok, GlobalLoadBalancer, StatefulSet,
  Container, ContainerPort, VolumeMount, Volume, bare_meta,
}
use k8s_glb_operator.Api.Objects.{base_of}
use k8s_glb_operator.Version.{version}
use k8s_glb_operator.Controller.Client.{LoadBalancerClient}
use k8s_glb_operator.Controller.StatefulSets.Server.{Stamp, stamped_meta, stamped, Populates}
use k8s_glb_operator.Controller.StatefulSets.Watched.{HasLabels}
use k8s_glb_operator.Controller.StatefulSets.{
  deployment_name, haproxy_labels, set_labels, haproxy_container, set_volumes, pod_template,
  new_set, assign_set, set_immutable, mutate_set, ensure_haproxy_stateful_set,
}

abbrev pub set_key : GlobalLoadBalancer → NamespacedName
set_key cluster = record { namespace = cluster.namespace; name = deployment_name cluster }

-- The set that is wanted, with the owner references that `owners` gives.
abbrev pub desired_meta : GlobalLoadBalancer → ObjectMeta
desired_meta cluster = record (bare_meta cluster.namespace (deployment_name cluster)) {
  labels = set_labels;
}

abbrev pub desired_set :
    (ObjectMeta → ObjectMeta → List OwnerReference) → GlobalLoadBalancer → StatefulSet
desired_set owners cluster = record {
  metadata = record (desired_meta cluster) {
    owner_references = owners cluster.metadata (desired_meta cluster);
  };
  spec = record {
    replicas = some cluster.spec.replicas;
    template = pod_template cluster;
    selector = some (record { match_labels = haproxy_labels; match_expressions = [] });
  };
}

-- The set that a load balancer asks for, with what the server puts into its metadata.
pub record IsWanted (owners : ObjectMeta → ObjectMeta → List OwnerReference) (stamp : Stamp)
    (cluster : GlobalLoadBalancer) (set : StatefulSet) : Type 0 where
  pub same_namespace : set.namespace ≡ cluster.namespace
  pub same_name : set.name ≡ cluster.name <> "-haproxy"
  pub stamp_kept : set.metadata ≡ stamped_meta stamp set.metadata
  pub no_annotations : set.metadata.annotations ≡ []
  pub owned_by :
      set.metadata.owner_references
      ≡ owners cluster.metadata (record (bare_meta set.namespace set.name) { labels = set.labels })
  pub labels :
      (k : String)
      → lookup k set.labels
        ≡ lookup k (
            ("app.kubernetes.io/component", "haproxy")
            ∷ ("app.kubernetes.io/name", "global-load-balancer")
            ∷ ("app.kubernetes.io/version", version)
            ∷ [])
  pub replicas : set.spec.replicas ≡ some cluster.spec.replicas
  pub selector : Labels
  pub selects :
      set.spec.selector ≡ some (record { match_labels = selector; match_expressions = [] })
  pub selects_some : selector ≢ []
  pub selects_pods : HasLabels selector set.spec.template.labels
  pub container : Container
  pub only_container : set.spec.template.spec.containers ≡ container ∷ []
  pub of_image : container.image ≡ cluster.spec.image
  pub ports : map (λ (p : ContainerPort). p.container_port) container.ports ≡ 8404 ∷ 8405 ∷ []
  pub mounted :
      All
        (λ (mount : VolumeMount).
          (volume : Volume) × Mem volume set.spec.template.spec.volumes
          × (volume.name ≡ mount.name))
        container.volume_mounts

module _ {S : Type 0} (client : LoadBalancerClient S)
    (find_set : S → NamespacedName → Option StatefulSet) (stamp_of : S → NamespacedName → Stamp)
    (updates : S → ℕ) (laws : Populates client.apply_stateful_set find_set stamp_of updates)
    (owners : ObjectMeta → ObjectMeta → List OwnerReference)
    (owned : (owner m : ObjectMeta)
      → client.set_controller_reference owner m
        ≡ ok (record m { owner_references = owners owner m }))
    (cluster : GlobalLoadBalancer) where
  pub mutated :
      (stored : StatefulSet)
      → mutate_set client.set_controller_reference cluster stored ≡ ok (desired_set owners cluster)
  unfolding mutate_set assign_set set_immutable
  mutated stored = rw (owned cluster.metadata (desired_meta cluster)) refl

  -- The set as the server holds it.
  abbrev pub stored_set : S → StatefulSet
  stored_set s = stamped (stamp_of s (set_key cluster)) (desired_set owners cluster)

  pub stored_set-IsWanted :
      (s : S) → IsWanted owners (stamp_of s (set_key cluster)) cluster (stored_set s)
  unfolding pod_template haproxy_container set_volumes set_labels lookup string_eq
  stored_set-IsWanted s = record {
    same_namespace = refl;
    same_name = refl;
    stamp_kept = refl;
    no_annotations = refl;
    owned_by = refl;
    labels = λ k. refl;
    replicas = refl;
    selector = haproxy_labels;
    selects = refl;
    selects_some = λ none. cc;
    selects_pods = λ k v found. ground (arith, found);
    container = haproxy_container cluster;
    only_container = refl;
    of_image = refl;
    ports = refl;
    mounted = (
      (_, mem-cons_self, refl),
      (
        (_, mem-cons_of_mem _ mem-cons_self, refl),
        ((_, mem-cons_of_mem _ (mem-cons_of_mem _ mem-cons_self), refl), tt),
      ),
    );
  }

  pub ensured_set :
      (s : S)
      → ((ensure_haproxy_stateful_set client s cluster).1 ≡ none)
        × (find_set (ensure_haproxy_stateful_set client s cluster).0 (set_key cluster)
            ≡ some (stored_set s))
  unfolding ensure_haproxy_stateful_set new_set
  ensured_set s =
      let (done, stored) =
        laws.applied s (new_set cluster) (desired_set owners cluster)
          (mutate_set client.set_controller_reference cluster)
          (mutated (base_of (find_set s (set_key cluster)) (new_set cluster))) refl in
      (ap error_of done, stored)

  -- Where the client's calls succeed, and the server keeps the UID and the creation timestamp of a stored
  -- set and gives both to a new one, `EnsureHAProxyStatefulSet` has no error and leaves the set that the
  -- load balancer asks for, whatever was stored: its replicas, one container of its image with the ports
  -- 8404 and 8405 and a volume for each mount, and a selector that matches the pods of its own template.
  -- UID and creation timestamp are the server's. Labels, annotations and owners that others had put into
  -- its metadata are gone.
  pub ensured :
      (s : S)
      → ((ensure_haproxy_stateful_set client s cluster).1 ≡ none)
        × (set : StatefulSet) × (find_set
              (ensure_haproxy_stateful_set client s cluster).0
              (set_key cluster)
            ≡ some set)
        × IsWanted owners (stamp_of s (set_key cluster)) cluster set
  ensured s =
      let (fine, stored) = ensured_set s in (fine, stored_set s, stored, stored_set-IsWanted s)
