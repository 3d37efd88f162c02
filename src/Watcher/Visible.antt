-- ===== src/Watcher/Visible.antt =====
-- kubeUpdate.go, `UpdateVisibility`, `updateVisibilityWithCM` and `HandleUnknownNamespaceNsMap`, on the
-- tables of the system monitor. What the kernel answers for a key is an argument. The update of the
-- host's own maps in `updateVisibilityWithCM` is left out.
pub mod Seen
use kube_armor.Base.{
  Bool, List, Option, false, if◌then◌else◌, is_some, none, not, some, true, ◌&&◌, ◌||◌, ◌∷◌, [],
}
use kube_armor.Base.Comparable.{nat_eq, text_eq, ◌==◌}
use kube_armor.Base.GoMap.{GoMap, delete, get, has, put}
use kube_armor.Base.Text.{Text, codes}
use kube_armor.Bpflsm.Keys.{NsKey, ns_eq}
use kube_armor.Monitor.Namespaces.{
  Answers, NsAction, add_container_id_to_ns_map, default_visibility, invisible, update_ns_key_map,
}
use kube_armor.Monitor.State.{NsVisibility, Tables, Visibility}
use kube_armor.Watcher.Points
use kube_armor.Watcher.Selectors.{contains_element}

-- The loop over the keys of a namespace.
unfoldable pub update_keys :
    (NsKey → Answers) → NsAction → Visibility → List NsKey → Tables → Tables
update_keys answers action v [] t = t
update_keys answers action v (ns ∷ keys) t =
    update_keys answers action v keys (update_ns_key_map (answers ns) action ns v t)

unfoldable pub put_visibility : (NsKey → Answers) → Text → Visibility → Tables → Tables
put_visibility answers namespace v t = elim (get namespace t.namespace_pids) [
  | none ↦ record t {
    namespace_pids = put namespace (record { ns_keys = []; visible = v }) t.namespace_pids;
  }
  | some val ↦
      update_keys answers NsAction.modified v val.ns_keys
        (record t { namespace_pids = put namespace (record val { visible = v }) t.namespace_pids })
]

unfoldable pub drop_visibility : (NsKey → Answers) → Text → Tables → Tables
drop_visibility answers namespace t =
    let t₁ : Tables = elim (get namespace t.namespace_pids) [
      | none ↦ t
      | some val ↦ update_keys answers NsAction.deleted invisible val.ns_keys t
    ] in
    record t₁ { namespace_pids = delete namespace t₁.namespace_pids }

unfoldable pub update_visibility : (NsKey → Answers) → Text → Text → Visibility → Tables → Tables
update_visibility answers action namespace v t =
    if action == Points.added || action == Points.modified
    then put_visibility answers namespace v t
    else if action == Points.deleted
    then drop_visibility answers namespace t
    else t

-- The namespaces of the cluster with their annotations.
unfoldable pub update_visibility_with_cm :
    (NsKey → Answers) → Text → List Text → GoMap Text (GoMap Text Text) → Tables → Tables
update_visibility_with_cm answers visibility untracked [] t = t
update_visibility_with_cm answers visibility untracked ((name, annotations) ∷ cluster) t =
    update_visibility_with_cm answers visibility untracked cluster (
      if has (codes "kubearmor-visibility") annotations || contains_element untracked name
      then t
      else update_visibility answers Points.modified name (default_visibility visibility) t)

unfoldable pub remove_first_key : NsKey → List NsKey → List NsKey
remove_first_key ns [] = []
remove_first_key ns (other ∷ keys) =
    if other.mnt_ns == ns.mnt_ns && other.pid_ns == ns.pid_ns
    then keys
    else other ∷ remove_first_key ns keys

-- A container that the runtime told of before the pod was known.
unfoldable pub handle_unknown_namespace_ns_map :
    Answers → Text → Text → Text → NsKey → Tables → Tables
handle_unknown_namespace_ns_map answers visibility id namespace ns t =
    let t₁ = add_container_id_to_ns_map answers visibility id namespace ns t in
    elim (get (codes "Unknown") t₁.namespace_pids) [
      | none ↦ t₁
      | some val ↦ record t₁ {
        namespace_pids =
            put (codes "Unknown") (record val { ns_keys = remove_first_key ns val.ns_keys })
              t₁.namespace_pids;
      }
    ]
