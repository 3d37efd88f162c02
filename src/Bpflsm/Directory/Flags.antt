-- ===== src/Bpflsm/Directory/Flags.antt =====
-- What the flags of the entries are after `dirtoMap`.
use kube_armor.Base.{
  ℕ, ◌≡◌, refl, true, List, [], ◌∷◌, Option, none, some, arith, Bool-cases, inl, inr,
}
use kube_armor.Base.Comparable.{◌==◌, equal_refl}
use kube_armor.Base.GoMap.{get, put, get-put}
use kube_armor.Base.Text.{Text, split}
use kube_armor.Bpflsm.Keys.{
  InnerKey, Index, process_index, file_index, Masks, Rules, mask_at, set_mask_at, path_of, inner_eq,
  inner_beq_iff,
}
use kube_armor.Bpflsm.Masks.{
  dir, hint, with_flag, has_flag, dir-with_dir, dir-with_hint, hint-with_hint,
}
use kube_armor.Bpflsm.Directory.{
  slash, source_of, old_flag, hints_of, hint_masks, put_hints, dir_masks, dir_key, dir_to_map,
}

pub mask_at-set : (idx : Index) (x : ℕ) (v : Masks) → mask_at idx (set_mask_at idx x v) ≡ x
mask_at-set process_index x v = refl
mask_at-set file_index x v = refl

hint_masks-dir :
    (idx : Index) (old : Option Masks) (val : Masks)
    → old_flag dir idx old ≡ true
    → has_flag dir (mask_at idx (hint_masks idx old val)) ≡ true
unfolding hint_masks old_flag
hint_masks-dir idx none val h = cc
hint_masks-dir idx (some v) val h =
    rw (h, mask_at-set) (ground (arith, dir-with_hint (mask_at idx v)))

put_hint-dir :
    (idx : Index) (val : Masks) (m : Rules) (key k : InnerKey)
    → old_flag dir idx (get k m) ≡ true
    → old_flag dir idx (get k (put key (hint_masks idx (get key m) val) m)) ≡ true
unfolding old_flag
put_hint-dir idx val m key k h = elim (Bool-cases (key == k)) [
  | inl same ↦
      let e : key ≡ k = (inner_beq_iff key k).0 same in
      rw (get-put, same, e) (hint_masks-dir idx (get k m) val h)
  | inr other ↦ rw (get-put, other) h
]

-- A hint never turns a directory entry into something else.
pub put_hints-dir :
    (idx : Index) (src : Text) (hs : List Text) (val : Masks) (m : Rules) (k : InnerKey)
    → old_flag dir idx (get k m) ≡ true
    → old_flag dir idx (get k (put_hints idx src hs val m)) ≡ true
unfolding put_hints
put_hints-dir idx src [] val m k h = h
put_hints-dir idx src (x ∷ hs) val m k h =
    let key : InnerKey = record { path = path_of x; source = source_of src } in
    let val' : Masks = hint_masks idx (get key m) val in
    put_hints-dir idx src hs val' (put key val' m) k (put_hint-dir idx val m key k h)

dir_masks-dir :
    (idx : Index) (old : Option Masks) (val : Masks)
    → has_flag dir (mask_at idx (dir_masks idx old val)) ≡ true
unfolding dir_masks
dir_masks-dir idx old val = rw mask_at-set (
    ground (arith, dir-with_dir (mask_at idx val), dir-with_hint (with_flag dir (mask_at idx val))))

-- After `dirtoMap` the key of the directory is there and marked as a directory, whatever hints
-- share its first 256 bytes.
pub dir_to_map-dir :
    (idx : Index) (p src : Text) (m : Rules) (val : Masks)
    → old_flag dir idx (get (dir_key p src) (dir_to_map idx p src m val)) ≡ true
unfolding dir_to_map old_flag
dir_to_map-dir idx p src m val =
    put_hints-dir idx src (hints_of (split slash p)) _ _ (dir_key p src)
      (rw (get-put, equal_refl) (dir_masks-dir idx _ val))

hint_masks-hint :
    (idx : Index) (old : Option Masks) (val : Masks)
    → has_flag hint (mask_at idx (hint_masks idx old val)) ≡ true
unfolding hint_masks
hint_masks-hint idx none val = rw mask_at-set (hint-with_hint _)
hint_masks-hint idx (some v) val = elim (Bool-cases (has_flag dir (mask_at idx v))) [
  | inl is_dir ↦ rw (is_dir, mask_at-set) (hint-with_hint _)
  | inr not_dir ↦ rw (not_dir, mask_at-set) (hint-with_hint _)
]

put_hints-hint :
    (idx : Index) (src : Text) (hs : List Text) (val : Masks) (m : Rules) (k : InnerKey)
    → old_flag hint idx (get k m) ≡ true
    → old_flag hint idx (get k (put_hints idx src hs val m)) ≡ true
unfolding put_hints old_flag
put_hints-hint idx src [] val m k h = h
put_hints-hint idx src (x ∷ hs) val m k h =
    let key : InnerKey = record { path = path_of x; source = source_of src } in
    let val' : Masks = hint_masks idx (get key m) val in
    put_hints-hint idx src hs val' (put key val' m) k (elim (Bool-cases (key == k)) [
      | inl same ↦ rw (get-put, same) (hint_masks-hint idx (get key m) val)
      | inr other ↦ rw (get-put, other) h
    ])

-- The entries under the given paths are there and are marked as hints.
abbrev pub Hinted : Index → Text → List Text → Rules → Type 0
Hinted idx src [] m = Unit
Hinted idx src (h ∷ hs) m =
    (old_flag hint idx (get (record { path = path_of h; source = source_of src }) m) ≡ true)
    × Hinted idx src hs m

put_hints-Hinted :
    (idx : Index) (src : Text) (hs : List Text) (val : Masks) (m : Rules)
    → Hinted idx src hs (put_hints idx src hs val m)
unfolding put_hints old_flag
put_hints-Hinted idx src [] val m = tt
put_hints-Hinted idx src (x ∷ hs) val m =
    let key : InnerKey = record { path = path_of x; source = source_of src } in
    let val' : Masks = hint_masks idx (get key m) val in
    (
      put_hints-hint idx src hs val' (put key val' m) key
          (rw (get-put, equal_refl) (hint_masks-hint idx (get key m) val)),
      put_hints-Hinted idx src hs val' (put key val' m),
    )

-- After `dirtoMap` every directory above `p` is there and marked as a hint.
pub dir_to_map-Hinted :
    (idx : Index) (p src : Text) (m : Rules) (val : Masks)
    → Hinted idx src (hints_of (split slash p)) (dir_to_map idx p src m val)
unfolding dir_to_map
dir_to_map-Hinted idx p src m val = put_hints-Hinted idx src (hints_of (split slash p)) _ _
