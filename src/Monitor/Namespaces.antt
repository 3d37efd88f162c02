-- ===== src/Monitor/Namespaces.antt =====
-- processTree.go, the map from namespaces to containers, and `UpdateNsKeyMap` of systemMonitor.go.
pub mod Lookup
pub mod Keys
use kube_armor.Base.{
  Bool, List, Option, ◌||◌, false, get_or, if◌then◌else◌, none, not, some, true, ◌&&◌, ◌++◌, ◌∷◌,
  [], ℕ,
}
use kube_armor.Base.Comparable.{nat_eq, text_eq, ◌==◌}
use kube_armor.Base.GoMap.{GoMap, delete, get, put}
use kube_armor.Base.Text.{Text, codes, contains}
use kube_armor.Bpflsm.Keys.{NsKey, ns_eq}
use kube_armor.Monitor.State.{NsVisibility, Tables, Visibility}

-- What the kernel answers: whether a new map can be made, whether the key is there to delete, and
-- for which scopes a byte can be put into the map.
pub record Answers : Type 0 where
  pub made : Bool
  pub deleted : Bool
  pub puts : Visibility

abbrev pub invisible : Visibility
invisible = record {
  file = false;
  process = false;
  network = false;
  capabilities = false;
  dns = false;
}

pub data NsAction : Type 0 where
  added modified deleted : NsAction

-- The five `Put`s under MODIFIED. One that fails is logged, and leaves the byte of its scope.
unfoldable pub write_scopes : Visibility → Visibility → Visibility → Visibility
write_scopes puts v old = record {
  file = if puts.file then v.file else old.file;
  process = if puts.process then v.process else old.process;
  network = if puts.network then v.network else old.network;
  capabilities = if puts.capabilities then v.capabilities else old.capabilities;
  dns = if puts.dns then v.dns else old.dns;
}

-- `UpdateNsKeyMap` on `NsVisibilityMap`, the map of the program from keys to kernel maps. Each of these
-- holds one byte for each scope, and a new one is made with its bytes. The kernel's own map of them,
-- `BpfNsVisibilityMap`, is not kept: a `Put` into it that fails is only logged, and what `Delete` on it
-- gives is an answer.
unfoldable pub update_ns_key_map : Answers → NsAction → NsKey → Visibility → Tables → Tables
update_ns_key_map a added ns v t =
    if a.made then record t { ns_visibility = put ns v t.ns_visibility } else t
update_ns_key_map a modified ns v t = elim (get ns t.ns_visibility) [
  | none ↦ t
  | some old ↦ record t { ns_visibility = put ns (write_scopes a.puts v old) t.ns_visibility }
]
update_ns_key_map a deleted ns v t =
    if a.deleted then record t { ns_visibility = delete ns t.ns_visibility } else t

unfoldable pub lookup_container_id : NsKey → Tables → Text
lookup_container_id ns t = get_or (get ns t.ns_map) []

-- The loop that sets `found`.
unfoldable pub lists_key : NsKey → List NsKey → Bool
lists_key ns [] = false
lists_key ns (other ∷ more) =
    (other.mnt_ns == ns.mnt_ns && other.pid_ns == ns.pid_ns) || lists_key ns more

-- The visibility that the configuration gives to a namespace not known yet.
unfoldable pub default_visibility : Text → Visibility
default_visibility config = record {
  file = contains config (codes "file");
  process = contains config (codes "process");
  network = contains config (codes "network");
  capabilities = contains config (codes "capabilities");
  dns = contains config (codes "dns");
}

-- The part of `AddContainerIDToNsMap` under `BpfMapLock`.
unfoldable pub add_ns_key : Answers → Text → Text → NsKey → Tables → Tables
add_ns_key a config namespace ns t = elim (get namespace t.namespace_pids) [
  | some val ↦
      if lists_key ns val.ns_keys
      then t
      else update_ns_key_map a added ns val.visible (record t {
        namespace_pids =
            put namespace (record val { ns_keys = val.ns_keys ++ (ns ∷ []) }) t.namespace_pids;
      })
  | none ↦ update_ns_key_map a added ns (default_visibility config) (record t {
    namespace_pids =
        put namespace (record { ns_keys = ns ∷ []; visible = invisible }) t.namespace_pids;
  })
]

unfoldable pub add_container_id_to_ns_map : Answers → Text → Text → Text → NsKey → Tables → Tables
add_container_id_to_ns_map a config id namespace ns t =
    add_ns_key a config namespace ns (record t { ns_map = put ns id t.ns_map })

-- `append(val.NsKeys[:i], val.NsKeys[i+1:]...)` for the first key that is the same.
unfoldable pub remove_key : NsKey → List NsKey → List NsKey
remove_key ns [] = []
remove_key ns (other ∷ more) =
    if other.mnt_ns == ns.mnt_ns && other.pid_ns == ns.pid_ns
    then more
    else other ∷ remove_key ns more

-- The range over `NsMap` that looks for the container's key.
unfoldable pub key_of_container : Text → GoMap NsKey Text → Option NsKey
key_of_container id [] = none
key_of_container id ((ns, other) ∷ m) = if id == other then some ns else key_of_container id m

-- The part of `DeleteContainerIDFromNsMap` under `BpfMapLock`.
unfoldable pub remove_ns_key : Answers → Text → NsKey → Tables → Tables
remove_ns_key a namespace ns t = elim (get namespace t.namespace_pids) [
  | none ↦ t
  | some val ↦ update_ns_key_map a deleted ns invisible (record t {
    namespace_pids =
        put namespace (record val { ns_keys = remove_key ns val.ns_keys }) t.namespace_pids;
  })
]

unfoldable pub delete_container_id_from_ns_map : Answers → Text → Text → NsKey → Tables → Tables
delete_container_id_from_ns_map a id namespace ns t =
    if not (ns.pid_ns == 0) && not (ns.mnt_ns == 0)
    then remove_ns_key a namespace ns (record t { ns_map = delete ns t.ns_map })
    else elim (key_of_container id t.ns_map) [
      | none ↦ t
      | some found ↦ remove_ns_key a namespace found t
    ]
