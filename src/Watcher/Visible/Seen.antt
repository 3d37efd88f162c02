-- ===== src/Watcher/Visible/Seen.antt =====
-- kubeUpdate.go, `UpdateVisibility`: what the maps of the keys hold afterwards.
use mathlib.Core.Option
use kube_armor.Base.{
  none, not, ◌∙◌, ◌&&◌, Bool, List, Option, Option-cases, inl, inr, false, if◌then◌else◌, some,
  true, ◌||◌, ◌≡◌, ◌∷◌, [], ap, arith, refl,
}
use kube_armor.Base.Comparable.{nat_eq, text_eq, ◌==◌}
use kube_armor.Base.GoMap.{get, get-put, put}
use kube_armor.Base.Text.{Text}
use kube_armor.Bpflsm.Keys.{NsKey, ns_eq}
use kube_armor.Monitor.Namespaces.{Answers, NsAction, update_ns_key_map, write_scopes}
use kube_armor.Monitor.State.{NsVisibility, Tables, Visibility}
use kube_armor.Watcher.Points
use kube_armor.Watcher.Visible.{put_visibility, update_keys, update_visibility}

unfoldable pub has_key : NsKey → List NsKey → Bool
has_key k [] = false
has_key k (ns ∷ keys) = ns == k || has_key k keys

-- One scope after a `Put` that succeeds or not.
unfoldable pub shows : Bool → Bool → Bool → Bool
shows written new old = (written && new) || (not written && old)

-- A map after the new visibility: in each scope that can be written the new byte, in the others the
-- old one.
unfoldable pub renewed : Visibility → Visibility → Visibility → Visibility
renewed written new old = record {
  file = shows written.file new.file old.file;
  process = shows written.process new.process old.process;
  network = shows written.network new.network old.network;
  capabilities = shows written.capabilities new.capabilities old.capabilities;
  dns = shows written.dns new.dns old.dns;
}

-- What a key sees after its namespace, with these keys, got a new visibility.
unfoldable pub seen :
    (NsKey → Answers) → NsKey → List NsKey → Visibility → Option Visibility → Option Visibility
seen answers k keys v Option.none = none
seen answers k keys v (some old) =
    if has_key k keys then some (renewed (answers k).puts v old) else some old

shows_if : (b new old : Bool) → (if b then new else old) ≡ shows b new old
unfolding shows
shows_if b new old = ground arith

write_scopes-eq-renewed : (puts v old : Visibility) → write_scopes puts v old ≡ renewed puts v old
unfolding write_scopes renewed
write_scopes-eq-renewed puts v old = ground (
  arith,
  shows_if puts.file v.file old.file,
  shows_if puts.process v.process old.process,
  shows_if puts.network v.network old.network,
  shows_if puts.capabilities v.capabilities old.capabilities,
  shows_if puts.dns v.dns old.dns,
)

seen_map :
    (answers : NsKey → Answers) (k : NsKey) (keys : List NsKey) (v : Visibility)
    (old : Option Visibility)
    → (if has_key k keys then Option.map (write_scopes (answers k).puts v) old else old)
      ≡ seen answers k keys v old
unfolding seen
seen_map answers k keys v Option.none = ground arith
seen_map answers k keys v (some old) =
    ground (arith, write_scopes-eq-renewed (answers k).puts v old)

write_scopes_twice :
    (puts v old : Visibility)
    → write_scopes puts v (write_scopes puts v old) ≡ write_scopes puts v old
unfolding write_scopes
write_scopes_twice puts v old = ground arith

map-write_scopes_twice :
    (puts v : Visibility) (old : Option Visibility)
    → Option.map (write_scopes puts v) (Option.map (write_scopes puts v) old)
      ≡ Option.map (write_scopes puts v) old
map-write_scopes_twice puts v Option.none = refl
map-write_scopes_twice puts v (some old) = ap some (write_scopes_twice puts v old)

modified-update_ns_key_map :
    (a : Answers) (ns k : NsKey) (v : Visibility) (t : Tables)
    → get k (update_ns_key_map a NsAction.modified ns v t).ns_visibility ≡ (
        if ns == k
        then Option.map (write_scopes a.puts v) (get k t.ns_visibility)
        else get k t.ns_visibility)
unfolding update_ns_key_map
modified-update_ns_key_map a ns k v t =
    let maps = t.ns_visibility in
    let same : (ns == k) ≡ true → get ns maps ≡ get k maps =
      λ e. ap (λ x. get x maps) ((ns_eq.equal_iff ns k).0 e) in
    elim (Option-cases (get ns maps)) [
      | inl absent ↦ ground (arith, absent, same)
      | inr (old, there) ↦
          ground (arith, there, same, get-put ns k (write_scopes a.puts v old) maps)
    ]

get-update_keys :
    (answers : NsKey → Answers) (v : Visibility) (keys : List NsKey) (k : NsKey) (t : Tables)
    → get k (update_keys answers NsAction.modified v keys t).ns_visibility ≡ (
        if has_key k keys
        then Option.map (write_scopes (answers k).puts v) (get k t.ns_visibility)
        else get k t.ns_visibility)
unfolding update_keys has_key
get-update_keys answers v [] k t = refl
get-update_keys answers v (ns ∷ keys) k t = ground (
  arith,
  get-update_keys answers v keys k (update_ns_key_map (answers ns) NsAction.modified ns v t),
  modified-update_ns_key_map (answers ns) ns k v t,
  map-write_scopes_twice (answers k).puts v (get k t.ns_visibility),
  (ns_eq.equal_iff ns k).0,
)

-- After UpdateVisibility, for ADDED or MODIFIED, of a namespace that is known, the map of each of its
-- keys that has one holds the new visibility in the scopes whose `Put` succeeds for the key and the old
-- one in the others, and every other map holds what it held. The answers of the kernel for a key are
-- the same each time.
pub get-update_visibility :
    (answers : NsKey → Answers) (action namespace : Text) (v : Visibility) (t : Tables)
    (val : NsVisibility) (k : NsKey)
    → (action == Points.added || action == Points.modified) ≡ true
    → get namespace t.namespace_pids ≡ some val
    → get k (update_visibility answers action namespace v t).ns_visibility
      ≡ seen answers k val.ns_keys v (get k t.ns_visibility)
unfolding update_visibility put_visibility
get-update_visibility answers action namespace v t val k h known =
    rw (update_visibility, h, put_visibility, known)
      (get-update_keys answers v val.ns_keys k (record t {
        namespace_pids = put namespace (record val { visible = v }) t.namespace_pids;
      })
        ∙ seen_map answers k val.ns_keys v (get k t.ns_visibility))
