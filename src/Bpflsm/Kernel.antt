-- ===== src/Bpflsm/Kernel.antt =====
-- The kernel maps, which the package ebpf of cilium gives access to. The package is not part of the
-- program, so its maps are a parameter: what `Put`, `Delete` and `Lookup` are documented to do.
use kube_armor.Base.{ℕ, ◌≡◌, refl, [], Option, none, some, if◌then◌else◌}
use kube_armor.Base.Comparable.{Comparable}
use kube_armor.Base.GoMap.{GoMap, get, put, delete, get-put, get-delete}
use kube_armor.Bpflsm.Keys.{ArgumentsKey, InnerKey, Masks, NsKey, argument_eq, inner_eq, ns_eq}

-- `update` is `Put`, which may fail, for one where the map is full. `delete` is the map after
-- `Delete`, which fails where the key is missing.
pub record EbpfMap (K V : Type 0) (c : Comparable K) : Type 1 where
  pub Map : Type 0
  pub empty : Map
  pub lookup : K → Map → Option V
  pub update : K → V → Map → Option Map
  pub delete : K → Map → Map
  pub lookup-empty : (k : K) → lookup k empty ≡ none
  pub lookup-update :
      (k j : K) (v : V) (m m' : Map)
      → update k v m ≡ some m'
      → lookup j m' ≡ (if c.equal k j then some v else lookup j m)
  pub lookup-delete :
      (k j : K) (m : Map) → lookup j (delete k m) ≡ (if c.equal k j then none else lookup j m)

module _ {K V : Type 0} {c : Comparable K} (E : EbpfMap K V c) where
  open E use {Map, lookup, update, lookup-update}

  -- A failed `Put` is logged, and the loop goes on.
  unfoldable pub put_or_log : K → V → Map → Map
  put_or_log k v m = elim (update k v m) [ none ↦ m | some m' ↦ m' ]

  -- No `Put` fails.
  abbrev pub HasRoom : Type 0
  HasRoom = (k : K) (v : V) (m : Map) → (m' : Map) × (update k v m ≡ some m')

  pub lookup-put_or_log :
      HasRoom
      → (k j : K) (v : V) (m : Map)
      → lookup j (put_or_log k v m) ≡ (if c.equal k j then some v else lookup j m)
  unfolding put_or_log
  lookup-put_or_log room k j v m =
      let (m', ok) = room k v m in rw (ok, put_or_log) (lookup-update k j v m m' ok)

-- The four kinds of maps. An inner map is known to the outer one by the handle of its descriptor.
pub record Kernel : Type 1 where
  pub inner : EbpfMap InnerKey Masks inner_eq
  pub outer : EbpfMap NsKey ℕ ns_eq
  pub args : EbpfMap ArgumentsKey ℕ argument_eq
  pub throttle : EbpfMap NsKey ℕ ns_eq

-- A map that never fails, as an association list.
module _ {K V : Type 0} ⦃c : Comparable K⦄ where
  pub get-nil : (k : K) → get {V = V} k [] ≡ none
  unfolding get
  get-nil k = refl

  pub get_of_put :
      (k j : K) (v : V) (m m' : GoMap K V)
      → some (put k v m) ≡ some m'
      → get j m' ≡ (if c.equal k j then some v else get j m)
  get_of_put k j v m m' h = let same : put k v m ≡ m' = cc in rw (← same) (get-put k j v m)

abbrev pub list_map : (K V : Type 0) (c : Comparable K) → EbpfMap K V c
list_map K V c = record {
  Map = GoMap K V;
  empty = [];
  lookup = get ⦃c = c⦄;
  update = λ k v m. some (put ⦃c = c⦄ k v m);
  delete = delete ⦃c = c⦄;
  lookup-empty = get-nil ⦃c = c⦄;
  lookup-update = get_of_put ⦃c = c⦄;
  lookup-delete = get-delete ⦃c = c⦄;
}

abbrev pub list_kernel : Kernel
list_kernel = record {
  inner = list_map InnerKey Masks inner_eq;
  outer = list_map NsKey ℕ ns_eq;
  args = list_map ArgumentsKey ℕ argument_eq;
  throttle = list_map NsKey ℕ ns_eq;
}

-- It never runs full.
pub list_map-HasRoom : (K V : Type 0) (c : Comparable K) → HasRoom (list_map K V c)
list_map-HasRoom K V c k v m = (put ⦃c = c⦄ k v m, refl)
