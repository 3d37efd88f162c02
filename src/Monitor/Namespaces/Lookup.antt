-- ===== src/Monitor/Namespaces/Lookup.antt =====
-- processTree.go: which container a namespace belongs to after `AddContainerIDToNsMap` and
-- `DeleteContainerIDFromNsMap`.
use mathlib.Core.Logic.{inl, inr}
use kube_armor.Base.{
  ◌∙◌, ap, Bool-cases, Option-cases, false, get_or, if◌then◌else◌, true, not, ◌&&◌, ◌≡◌, refl,
  arith, [],
}
use kube_armor.Base.Comparable.{nat_eq, text_eq, ◌==◌}
use kube_armor.Base.GoMap.{delete, get, get-delete, get-put, put}
use kube_armor.Base.Text.{Text}
use kube_armor.Bpflsm.Keys.{NsKey, ns_eq}
use kube_armor.Monitor.Namespaces.{
  Answers, NsAction, added, modified, deleted, add_container_id_to_ns_map, add_ns_key,
  delete_container_id_from_ns_map, key_of_container, lists_key, lookup_container_id, remove_ns_key,
  update_ns_key_map,
}
use kube_armor.Monitor.State.{Tables, Visibility}

-- The kernel's maps and the lists of keys are no part of the lookup.
update_ns_key_map-ns_map :
    (a : Answers) (action : NsAction) (ns : NsKey) (v : Visibility) (t : Tables)
    → (update_ns_key_map a action ns v t).ns_map ≡ t.ns_map
unfolding update_ns_key_map
update_ns_key_map-ns_map a added ns v t = ground arith
update_ns_key_map-ns_map a modified ns v t = elim (Option-cases (get ns t.ns_visibility)) [
  | inl missing ↦ rw (update_ns_key_map, missing) refl
  | inr (old, found) ↦ rw (update_ns_key_map, found) refl
]
update_ns_key_map-ns_map a deleted ns v t = ground arith

add_ns_key-ns_map :
    (a : Answers) (config namespace : Text) (ns : NsKey) (t : Tables)
    → (add_ns_key a config namespace ns t).ns_map ≡ t.ns_map
unfolding add_ns_key
add_ns_key-ns_map a config namespace ns t = elim (Option-cases (get namespace t.namespace_pids)) [
  | inl missing ↦ rw (add_ns_key, missing) (update_ns_key_map-ns_map a added ns _ _)
  | inr (val, found) ↦ elim (Bool-cases (lists_key ns val.ns_keys)) [
    | inl known ↦ rw (add_ns_key, found, known) refl
    | inr fresh ↦ rw (add_ns_key, found, fresh) (update_ns_key_map-ns_map a added ns _ _)
  ]
]

remove_ns_key-ns_map :
    (a : Answers) (namespace : Text) (ns : NsKey) (t : Tables)
    → (remove_ns_key a namespace ns t).ns_map ≡ t.ns_map
unfolding remove_ns_key
remove_ns_key-ns_map a namespace ns t = elim (Option-cases (get namespace t.namespace_pids)) [
  | inl missing ↦ rw (remove_ns_key, missing) refl
  | inr (val, found) ↦ rw (remove_ns_key, found) (update_ns_key_map-ns_map a deleted ns _ _)
]

lookup-same_map :
    (ns : NsKey) (s t : Tables)
    → s.ns_map ≡ t.ns_map
    → lookup_container_id ns s ≡ lookup_container_id ns t
unfolding lookup_container_id
lookup-same_map ns s t e = ap (λ m. get_or (get ns m) []) e

lookup-put :
    (ns other : NsKey) (id : Text) (t : Tables)
    → lookup_container_id other (record t { ns_map = put ns id t.ns_map })
      ≡ (if ns == other then id else lookup_container_id other t)
unfolding lookup_container_id
lookup-put ns other id t = ground (arith, get-put ns other id t.ns_map)

lookup-delete :
    (ns other : NsKey) (t : Tables)
    → lookup_container_id other (record t { ns_map = delete ns t.ns_map })
      ≡ (if ns == other then [] else lookup_container_id other t)
unfolding lookup_container_id
lookup-delete ns other t = ground (arith, get-delete ns other t.ns_map)

module _ (a : Answers) (id namespace : Text) (ns other : NsKey) (t : Tables) where
  -- A namespace that is added belongs to its container, and every other one to the same as before.
  pub lookup_container_id-add_container_id_to_ns_map :
      (config : Text)
      → lookup_container_id other (add_container_id_to_ns_map a config id namespace ns t)
        ≡ (if ns == other then id else lookup_container_id other t)
  unfolding add_container_id_to_ns_map
  lookup_container_id-add_container_id_to_ns_map config =
      lookup-same_map other (add_container_id_to_ns_map a config id namespace ns t)
        (record t { ns_map = put ns id t.ns_map })
        (add_ns_key-ns_map a config namespace ns (record t { ns_map = put ns id t.ns_map }))
      ∙ lookup-put ns other id t

  -- A container that is deleted by its two namespaces is no longer found for them, and for every
  -- other namespace the same container is found as before.
  pub lookup_container_id-delete_container_id_from_ns_map :
      not (ns.pid_ns == 0) && not (ns.mnt_ns == 0) ≡ true
      → lookup_container_id other (delete_container_id_from_ns_map a id namespace ns t)
        ≡ (if ns == other then [] else lookup_container_id other t)
  unfolding delete_container_id_from_ns_map
  lookup_container_id-delete_container_id_from_ns_map given =
      lookup-same_map other (delete_container_id_from_ns_map a id namespace ns t)
        (record t { ns_map = delete ns t.ns_map })
        (rw (delete_container_id_from_ns_map, given)
          (remove_ns_key-ns_map a namespace ns (record t { ns_map = delete ns t.ns_map })))
      ∙ lookup-delete ns other t

  -- A container that is deleted without its namespaces is still found for every namespace that it
  -- was found for.
  pub delete_without_namespaces :
      not (ns.pid_ns == 0) && not (ns.mnt_ns == 0) ≡ false
      → lookup_container_id other (delete_container_id_from_ns_map a id namespace ns t)
        ≡ lookup_container_id other t
  unfolding delete_container_id_from_ns_map
  delete_without_namespaces given =
      lookup-same_map other (delete_container_id_from_ns_map a id namespace ns t) t
        (elim (Option-cases (key_of_container id t.ns_map)) [
          | inl missing ↦ rw (delete_container_id_from_ns_map, given, missing) refl
          | inr (key, found) ↦
              rw (delete_container_id_from_ns_map, given, found)
                (remove_ns_key-ns_map a namespace key t)
        ])
