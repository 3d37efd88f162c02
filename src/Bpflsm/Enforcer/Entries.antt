-- ===== src/Bpflsm/Enforcer/Entries.antt =====
-- The entries that the kernel finds for the namespaces of a container, and what a change of one inner map
-- leaves of them.
use kube_armor.Base.{false, ℕ, ◌≡◌, refl, ◌∙◌, Option, none, some, ap, inl, inr, Option-cases}
use kube_armor.Base.Comparable.{◌==◌, equal_refl, nat_eq, text_eq}
use kube_armor.Bpflsm.Kernel.{Kernel}
use kube_armor.Bpflsm.Keys.{InnerKey, Masks, NsKey, ns_eq}
use kube_armor.Bpflsm.Enforcer.{BpfEnforcer, ContainerKv, set_map}
use kube_armor.Bpflsm.Sync.Refines.{Covered}

module _ (k : Kernel) where
  open k use {inner, outer}

  -- What the kernel finds under a key for a process of the namespace, if it finds the container.
  unfoldable pub kernel_entry : BpfEnforcer k → NsKey → InnerKey → Option Masks
  kernel_entry be ns j = elim (outer.lookup ns be.bpf_containers) [
    | none ↦ none
    | some h ↦ inner.lookup j (be.maps h)
  ]

  pub kernel_entry_found :
      (be : BpfEnforcer k) (ns : NsKey) (h : ℕ) (j : InnerKey)
      → outer.lookup ns be.bpf_containers ≡ some h
      → kernel_entry be ns j ≡ inner.lookup j (be.maps h)
  unfolding kernel_entry
  kernel_entry_found be ns h j found = rw (found, kernel_entry)

  pub set_map_self : (h : ℕ) (m : inner.Map) (maps : ℕ → inner.Map) → set_map k h m maps h ≡ m
  unfolding set_map
  set_map_self h m maps = rw equal_refl

  set_map_other :
      (h other : ℕ) (m : inner.Map) (maps : ℕ → inner.Map)
      → (h == other) ≡ false
      → set_map k h m maps other ≡ maps other
  unfolding set_map
  set_map_other h other m maps ne = rw ne refl

  -- No other namespaces lead to this inner map.
  abbrev pub Alone : NsKey → ℕ → BpfEnforcer k → Type 0
  Alone ns h be =
      (other : NsKey) (g : ℕ)
      → (ns == other) ≡ false
      → outer.lookup other be.bpf_containers ≡ some g
      → (h == g) ≡ false

  -- For every other namespaces the kernel finds the entries that it found before.
  abbrev pub Spared : NsKey → BpfEnforcer k → BpfEnforcer k → Type 0
  Spared ns be be' =
      (other : NsKey) (j : InnerKey)
      → (ns == other) ≡ false
      → kernel_entry be' other j ≡ kernel_entry be other j

  -- A change of one inner map spares the namespaces that do not lead to it.
  pub set_map-Spared :
      (ns : NsKey) (h : ℕ) (m : inner.Map) (be be' : BpfEnforcer k)
      → Alone ns h be
      → be'.maps ≡ set_map k h m be.maps
      → ((other : NsKey)
          → (ns == other) ≡ false
          → outer.lookup other be'.bpf_containers ≡ outer.lookup other be.bpf_containers)
      → Spared ns be be'
  unfolding kernel_entry
  set_map-Spared ns h m be be' alone stored same other j ne =
      elim (Option-cases (outer.lookup other be.bpf_containers)) [
        | inl absent ↦ rw (kernel_entry, same other ne, absent) refl
        | inr (g, found) ↦
            rw (kernel_entry, same other ne, found)
              (ap (λ maps. inner.lookup j (maps g)) stored
                ∙ ap (inner.lookup j) (set_map_other h g m be.maps (alone other g ne found)))
      ]

  -- The outer map leads to the container's map, if it has one, and the rules account for it.
  abbrev pub Attached : ContainerKv → Option ℕ → BpfEnforcer k → Type 0
  Attached kv none be = outer.lookup kv.key be.bpf_containers ≡ none
  Attached kv (some h) be =
      (outer.lookup kv.key be.bpf_containers ≡ some h) × Covered k kv.rules (be.maps h)
