-- ===== src/PolicyIndex/Links.antt =====
-- How the operations change which module is linked to which, in either direction.
use access_management.Prelude.{
  ◌≡◌, refl, Bool, ◌&&◌, ◌||◌, not, List, [], ◌∷◌, ◌==◌, any, arith, lookup, delete, is_some,
  nat_comparable, or_empty, find, put, remove, prune, find-put, find-remove, find-delete,
  find-prune,
}
use access_management.PolicyIndex.State.{
  ModuleId, ModuleIdSet, Index, members, linked, unlink, unlink_pruning, add_dep, add_deps,
}

abbrev pub Links : Type 0
Links = List (ModuleId × ModuleIdSet)

-- `y` is in the set of `x`.
abbrev pub has_link : Links → ModuleId → ModuleId → Bool
has_link m x y = is_some (find x y m)

abbrev pub has_id : ModuleId → List ModuleId → Bool
has_id x ids = any (λ y. y == x) ids

pub has_link-put :
    (k l : ModuleId) (m : Links) (x y : ModuleId)
    → has_link (put k l tt m) x y ≡ (((k == x) && (l == y)) || has_link m x y)
has_link-put k l m x y = ground (arith, find-put k l tt x y m)

pub has_link-delete :
    (k : ModuleId) (m : Links) (x y : ModuleId)
    → has_link (delete k m) x y ≡ (not (k == x) && has_link m x y)
has_link-delete k m x y = ground (arith, find-delete k x y m)

has_link-remove :
    (k l : ModuleId) (m : Links) (x y : ModuleId)
    → has_link (remove k l m) x y ≡ (not ((k == x) && (l == y)) && has_link m x y)
has_link-remove k l m x y = ground (arith, find-remove k l x y m)

pub has_link-unlink :
    (id : ModuleId) (deps : List ModuleId) (m : Links) (x y : ModuleId)
    → has_link (unlink id deps m) x y ≡ (not ((id == y) && has_id x deps) && has_link m x y)
unfolding unlink
has_link-unlink id [] m x y = ground arith
has_link-unlink id (d ∷ ds) m x y =
    ground (arith, has_link-unlink id ds (remove d id m) x y, has_link-remove d id m x y)

has_link-prune :
    (k : ModuleId) (m : Links) (x y : ModuleId) → has_link (prune k m) x y ≡ has_link m x y
has_link-prune k m x y = ground (arith, find-prune k x y m)

pub has_link-unlink_pruning :
    (id : ModuleId) (deps : List ModuleId) (m : Links) (x y : ModuleId)
    → has_link (unlink_pruning id deps m) x y ≡ (not ((id == y) && has_id x deps) && has_link m x y)
unfolding unlink_pruning
has_link-unlink_pruning id [] m x y = ground arith
has_link-unlink_pruning id (d ∷ ds) m x y = ground (
  arith,
  has_link-unlink_pruning id ds (prune d (remove d id m)) x y,
  has_link-prune d (remove d id m) x y,
  has_link-remove d id m x y,
)

pub has_id-members : (s : ModuleIdSet) (x : ModuleId) → has_id x (members s) ≡ is_some (lookup x s)
unfolding members lookup
has_id-members [] x = refl
has_id-members ((y, t) ∷ s) x = ground (arith, has_id-members s x)

pub has_id-linked : (m : Links) (id x : ModuleId) → has_id x (linked m id) ≡ has_link m id x
unfolding linked find
has_id-linked m id x = has_id-members (or_empty (lookup id m)) x

pub dependencies-add_deps :
    (c : ModuleId) (ps : List ModuleId) (idx : Index) (x y : ModuleId)
    → has_link (add_deps c ps idx).dependencies x y
      ≡ (((c == x) && has_id y ps) || has_link idx.dependencies x y)
unfolding add_deps add_dep
dependencies-add_deps c [] idx x y = ground arith
dependencies-add_deps c (p ∷ ps) idx x y =
    ground (
      arith,
      dependencies-add_deps c ps (add_dep c p idx) x y,
      has_link-put c p idx.dependencies x y,
    )

pub dependents-add_deps :
    (c : ModuleId) (ps : List ModuleId) (idx : Index) (x y : ModuleId)
    → has_link (add_deps c ps idx).dependents x y
      ≡ (((c == y) && has_id x ps) || has_link idx.dependents x y)
unfolding add_deps add_dep
dependents-add_deps c [] idx x y = ground arith
dependents-add_deps c (p ∷ ps) idx x y =
    ground
      (arith, dependents-add_deps c ps (add_dep c p idx) x y, has_link-put p c idx.dependents x y)

-- The other maps are as before.
abbrev pub SameFiles : Index → Index → Type 0
SameFiles a b =
    (a.file_to_mod_id ≡ b.file_to_mod_id)
    × (a.mod_id_to_file ≡ b.mod_id_to_file)
    × (a.executables ≡ b.executables)

pub add_deps-SameFiles :
    (c : ModuleId) (ps : List ModuleId) (idx : Index) → SameFiles (add_deps c ps idx) idx
unfolding add_deps add_dep
add_deps-SameFiles c [] idx = (refl, refl, refl)
add_deps-SameFiles c (p ∷ ps) idx = add_deps-SameFiles c ps (add_dep c p idx)
