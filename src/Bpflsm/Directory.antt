-- ===== src/Bpflsm/Directory.antt =====
-- rulesHandling.go, `dirtoMap`: the entries of a directory rule. The directory itself is entered
-- as a file and as a directory, and each directory above it as a hint.
pub mod Flags
pub mod Hints
use kube_armor.Base.{
  ℕ, ◌≡◌, Bool, List, [], ◌∷◌, ◌++◌, Option, none, some, if◌then◌else◌, is_empty, drop_last, copy,
}
use kube_armor.Base.GoMap.{get, put}
use kube_armor.Base.Text.{Text, split, join}
use kube_armor.Bpflsm.Keys.{
  InnerKey, Index, Masks, Rules, mask_at, set_mask_at, zero_path, path_of, inner_eq,
}
use kube_armor.Bpflsm.Masks.{dir, hint, with_flag, has_flag, without_dir}

abbrev pub slash : ℕ
slash = b'/'

-- `if src != "" { copy(key.Source[:], []byte(src)) }` on a fresh key.
unfoldable pub source_of : Text → Text
source_of src = if is_empty src then zero_path else path_of src

-- The flag bits of an entry that is there, or none.
unfoldable pub old_flag : ℕ → Index → Option Masks → Bool
old_flag f idx none = Bool.false
old_flag f idx (some v) = has_flag f (mask_at idx v)

-- `strings.Join(paths[0:i], "/") + "/"` for i from 1 up to len(paths) - 2. The first list is
-- paths[0:i], the second the rest of them.
unfoldable pub hint_paths : List Text → List Text → List Text
hint_paths above [] = []
hint_paths above (x ∷ []) = []
hint_paths above (x ∷ y ∷ below) =
    (join slash above ++ (slash ∷ [])) ∷ hint_paths (above ++ (x ∷ [])) (y ∷ below)

abbrev pub hints_of : List Text → List Text
hints_of [] = []
hints_of (p ∷ ps) = hint_paths (p ∷ []) ps

-- The mask that a hint is entered with: an entry that is a directory stays one.
unfoldable pub hint_masks : Index → Option Masks → Masks → Masks
hint_masks idx none val = set_mask_at idx (with_flag hint (without_dir (mask_at idx val))) val
hint_masks idx (some old) val =
    if has_flag dir (mask_at idx old)
    then set_mask_at idx (with_flag hint (mask_at idx old)) val
    else set_mask_at idx (with_flag hint (without_dir (mask_at idx val))) val

-- The loop at the end. The mask goes on from one hint to the next.
unfoldable pub put_hints : Index → Text → List Text → Masks → Rules → Rules
put_hints idx src [] val m = m
put_hints idx src (h ∷ hs) val m =
    let key : InnerKey = record { path = path_of h; source = source_of src } in
    let val' : Masks = hint_masks idx (get key m) val in put_hints idx src hs val' (put key val' m)

-- The mask of the directory's own entry, which keeps the hint of an entry that is there.
unfoldable pub dir_masks : Index → Option Masks → Masks → Masks
unfolding old_flag
dir_masks idx old val =
    let x = with_flag dir (mask_at idx val) in
    set_mask_at idx (if old_flag hint idx old then with_flag hint x else x) val

-- The key for the files below the directory: `p` over what the key held before.
unfoldable pub file_key : Text → Text → InnerKey
file_key p src = record {
  path = path_of (join slash (drop_last (split slash p)));
  source = source_of src;
}

unfoldable pub dir_key : Text → Text → InnerKey
unfolding file_key
dir_key p src = record (file_key p src) { path = copy (file_key p src).path p }

unfoldable pub dir_to_map : Index → Text → Text → Rules → Masks → Rules
dir_to_map idx p src m val =
    let m₁ : Rules = put (file_key p src) val m in
    let val₂ : Masks = dir_masks idx (get (dir_key p src) m₁) val in
    put_hints idx src (hints_of (split slash p)) val₂ (put (dir_key p src) val₂ m₁)
