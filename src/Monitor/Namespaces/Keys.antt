-- ===== src/Monitor/Namespaces/Keys.antt =====
-- processTree.go: the namespaces that are listed for a Kubernetes namespace.
use mathlib.Core.Path.{subst}
use mathlib.Core.Logic.{inl, inr}
use kube_armor.Base.{
  ap, sym, Bool-cases, List, Option-cases, false, if◌then◌else◌, none, some, true, not, ◌&&◌, ◌||◌,
  ◌++◌, ◌∙◌, ◌≡◌, refl, arith, [], ◌∷◌,
}
use kube_armor.Base.Comparable.{nat_eq, text_eq, text_beq_iff, ◌==◌}
use kube_armor.Base.GoMap.{GoMap, delete, get, get-put, put}
use kube_armor.Base.Text.{Text}
use kube_armor.Bpflsm.Keys.{NsKey, ns_beq, ns_beq_iff, ns_eq}
use kube_armor.Monitor.Namespaces.{
  Answers, NsAction, added, modified, deleted, add_container_id_to_ns_map, add_ns_key,
  delete_container_id_from_ns_map, lists_key, remove_key, remove_ns_key, update_ns_key_map,
}
use kube_armor.Monitor.State.{NsVisibility, Tables, Visibility}

unfoldable pub keys_of : Text → Tables → List NsKey
keys_of namespace t = elim (get namespace t.namespace_pids) [ none ↦ [] | some val ↦ val.ns_keys ]

-- No key is listed twice.
unfoldable pub Unique : List NsKey → Type 0
Unique [] = Unit
Unique (ns ∷ keys) = (lists_key ns keys ≡ false) × Unique keys

lists_key-append :
    (other ns : NsKey) (keys : List NsKey)
    → lists_key other (keys ++ (ns ∷ [])) ≡ (ns == other) || lists_key other keys
unfolding lists_key ns_beq
lists_key-append other ns [] = ground arith
lists_key-append other ns (k ∷ keys) = ground (arith, lists_key-append other ns keys)

append-Unique :
    (ns : NsKey) (keys : List NsKey)
    → Unique keys
    → lists_key ns keys ≡ false
    → Unique (keys ++ (ns ∷ []))
unfolding Unique lists_key
append-Unique ns [] h fresh = (refl, tt)
append-Unique ns (k ∷ keys) (other, h) fresh = (
  ground (arith, lists_key-append k ns keys, ns_beq_iff ns k, ns_beq_iff k ns),
  append-Unique ns keys h (ground (arith, fresh)),
)

lists_key-remove_key :
    (other ns : NsKey) (keys : List NsKey)
    → Unique keys
    → lists_key other (remove_key ns keys) ≡ not (ns == other) && lists_key other keys
unfolding Unique lists_key ns_beq remove_key
lists_key-remove_key other ns [] h = ground arith
lists_key-remove_key other ns (k ∷ keys) (fresh, h) =
    ground (arith, fresh, lists_key-remove_key other ns keys h)

remove_key-Unique : (ns : NsKey) (keys : List NsKey) → Unique keys → Unique (remove_key ns keys)
unfolding Unique lists_key remove_key
remove_key-Unique ns [] h = h
remove_key-Unique ns (k ∷ keys) (fresh, h) =
    elim (Bool-cases (k.mnt_ns == ns.mnt_ns && k.pid_ns == ns.pid_ns)) [
      | inl same ↦ rw (remove_key, same) h
      | inr differ ↦
          rw (remove_key, differ)
            (lists_key-remove_key k ns keys h ∙ ground (arith, fresh), remove_key-Unique ns keys h)
    ]

update_ns_key_map-keys_of :
    (a : Answers) (action : NsAction) (ns : NsKey) (v : Visibility) (namespace : Text) (t : Tables)
    → keys_of namespace (update_ns_key_map a action ns v t) ≡ keys_of namespace t
unfolding update_ns_key_map keys_of
update_ns_key_map-keys_of a added ns v namespace t = ground arith
update_ns_key_map-keys_of a modified ns v namespace t =
    elim (Option-cases (get ns t.ns_visibility)) [
      | inl missing ↦ rw (update_ns_key_map, missing) refl
      | inr (old, found) ↦ rw (update_ns_key_map, found) refl
    ]
update_ns_key_map-keys_of a deleted ns v namespace t = ground arith

-- The list after the key is written for the Kubernetes namespace.
keys_of-put :
    (namespace : Text) (val : NsVisibility) (t : Tables)
    → keys_of namespace (record t { namespace_pids = put namespace val t.namespace_pids })
      ≡ val.ns_keys
unfolding keys_of
keys_of-put namespace val t =
    ground
      (arith, text_beq_iff namespace namespace, get-put namespace namespace val t.namespace_pids)

keys_of-known :
    (namespace : Text) (val : NsVisibility) (t : Tables)
    → get namespace t.namespace_pids ≡ some val
    → keys_of namespace t ≡ val.ns_keys
unfolding keys_of
keys_of-known namespace val t h = rw (keys_of, h) refl

keys_of-unknown :
    (namespace : Text) (t : Tables)
    → get namespace t.namespace_pids ≡ none
    → keys_of namespace t ≡ []
unfolding keys_of
keys_of-unknown namespace t h = rw (keys_of, h) refl

keys_of-updated :
    (a : Answers) (action : NsAction) (ns : NsKey) (v : Visibility) (namespace : Text)
    (val : NsVisibility) (t : Tables)
    → keys_of namespace (
        update_ns_key_map a action ns v
          (record t { namespace_pids = put namespace val t.namespace_pids }))
      ≡ val.ns_keys
keys_of-updated a action ns v namespace val t =
    update_ns_key_map-keys_of a action ns v namespace
      (record t { namespace_pids = put namespace val t.namespace_pids })
    ∙ keys_of-put namespace val t

keys_of-ns_map :
    (namespace : Text) (t : Tables) (m : GoMap NsKey Text)
    → keys_of namespace (record t { ns_map = m }) ≡ keys_of namespace t
unfolding keys_of
keys_of-ns_map namespace t m = refl

-- The list with a key that may be new.
abbrev with_key : NsKey → List NsKey → List NsKey
with_key ns keys = if lists_key ns keys then keys else keys ++ (ns ∷ [])

with_key-Unique : (ns : NsKey) (keys : List NsKey) → Unique keys → Unique (with_key ns keys)
with_key-Unique ns keys h = elim (Bool-cases (lists_key ns keys)) [
  | inl known ↦ rw known h
  | inr fresh ↦ rw fresh (append-Unique ns keys h fresh)
]

lists_key-with_key :
    (other ns : NsKey) (keys : List NsKey)
    → lists_key other (with_key ns keys) ≡ (ns == other) || lists_key other keys
lists_key-with_key other ns keys =
    ground (arith, lists_key-append other ns keys, ns_beq_iff ns other)

module _ (a : Answers) (namespace : Text) (ns : NsKey) where
  keys_of-add_ns_key :
      (config : Text) (t : Tables)
      → keys_of namespace (add_ns_key a config namespace ns t) ≡ with_key ns (keys_of namespace t)
  unfolding add_ns_key lists_key
  keys_of-add_ns_key config t = elim (Option-cases (get namespace t.namespace_pids)) [
    | inl missing ↦
        rw (add_ns_key, missing, keys_of-unknown namespace t missing)
          (keys_of-updated a added ns _ namespace _ t)
    | inr (val, found) ↦ elim (Bool-cases (lists_key ns val.ns_keys)) [
      | inl known ↦
          rw (add_ns_key, found, keys_of-known namespace val t found, known)
            (keys_of-known namespace val t found)
      | inr fresh ↦
          rw (add_ns_key, found, keys_of-known namespace val t found, fresh)
            (keys_of-updated a added ns _ namespace _ t)
    ]
  ]

  keys_of-remove_ns_key :
      (t : Tables)
      → keys_of namespace (remove_ns_key a namespace ns t) ≡ remove_key ns (keys_of namespace t)
  unfolding remove_ns_key remove_key
  keys_of-remove_ns_key t = elim (Option-cases (get namespace t.namespace_pids)) [
    | inl missing ↦ rw (remove_ns_key, missing, keys_of-unknown namespace t missing) refl
    | inr (val, found) ↦
        rw (remove_ns_key, found, keys_of-known namespace val t found)
          (keys_of-updated a deleted ns _ namespace _ t)
  ]

  keys_of-add_container_id_to_ns_map :
      (config id : Text) (t : Tables)
      → keys_of namespace (add_container_id_to_ns_map a config id namespace ns t)
        ≡ with_key ns (keys_of namespace t)
  unfolding add_container_id_to_ns_map
  keys_of-add_container_id_to_ns_map config id t =
      keys_of-add_ns_key config (record t { ns_map = put ns id t.ns_map })
      ∙ ap (with_key ns) (keys_of-ns_map namespace t (put ns id t.ns_map))

  keys_of-delete_container_id_from_ns_map :
      (id : Text) (t : Tables)
      → not (ns.pid_ns == 0) && not (ns.mnt_ns == 0) ≡ true
      → keys_of namespace (delete_container_id_from_ns_map a id namespace ns t)
        ≡ remove_key ns (keys_of namespace t)
  unfolding delete_container_id_from_ns_map
  keys_of-delete_container_id_from_ns_map id t given =
      rw (delete_container_id_from_ns_map, given)
        (keys_of-remove_ns_key (record t { ns_map = delete ns t.ns_map })
          ∙ ap (remove_key ns) (keys_of-ns_map namespace t (delete ns t.ns_map)))

  -- Adding a container keeps the list without repetitions.
  pub add_container_id_to_ns_map-Unique :
      (config id : Text) (t : Tables)
      → Unique (keys_of namespace t)
      → Unique (keys_of namespace (add_container_id_to_ns_map a config id namespace ns t))
  add_container_id_to_ns_map-Unique config id t h =
      subst Unique (sym (keys_of-add_container_id_to_ns_map config id t))
        (with_key-Unique ns (keys_of namespace t) h)

  -- A container that is added is listed, and the others stay as they were.
  pub lists_key-add_container_id_to_ns_map :
      (config id : Text) (t : Tables) (other : NsKey)
      → lists_key other (keys_of namespace (add_container_id_to_ns_map a config id namespace ns t))
        ≡ (ns == other) || lists_key other (keys_of namespace t)
  lists_key-add_container_id_to_ns_map config id t other =
      ap (lists_key other) (keys_of-add_container_id_to_ns_map config id t)
      ∙ lists_key-with_key other ns (keys_of namespace t)

  -- A container that is deleted by its two namespaces is not listed any more, and the others stay
  -- as they were, if no key is listed twice.
  pub lists_key-delete_container_id_from_ns_map :
      (id : Text) (t : Tables) (other : NsKey)
      → not (ns.pid_ns == 0) && not (ns.mnt_ns == 0) ≡ true
      → Unique (keys_of namespace t)
      → lists_key other (keys_of namespace (delete_container_id_from_ns_map a id namespace ns t))
        ≡ not (ns == other) && lists_key other (keys_of namespace t)
  lists_key-delete_container_id_from_ns_map id t other given h =
      ap (lists_key other) (keys_of-delete_container_id_from_ns_map id t given)
      ∙ lists_key-remove_key other ns (keys_of namespace t) h

  -- Deleting a container by its two namespaces keeps the list without repetitions.
  pub delete_container_id_from_ns_map-Unique :
      (id : Text) (t : Tables)
      → not (ns.pid_ns == 0) && not (ns.mnt_ns == 0) ≡ true
      → Unique (keys_of namespace t)
      → Unique (keys_of namespace (delete_container_id_from_ns_map a id namespace ns t))
  delete_container_id_from_ns_map-Unique id t given h =
      subst Unique (sym (keys_of-delete_container_id_from_ns_map id t given))
        (remove_key-Unique ns (keys_of namespace t) h)
