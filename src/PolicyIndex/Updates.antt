-- ===== src/PolicyIndex/Updates.antt =====
-- What AddOrUpdate and Delete store, and what their events name.
use mathlib.Core.Path.{subst}
use access_management.Prelude.{
  ◌≡◌, ◌↔◌, refl, sym, false, ◌&&◌, ◌||◌, Option, none, some, List, Str, ◌==◌, arith, lookup,
  delete, lookup-insert, lookup-delete, is_some, str_eq_iff, str_comparable, nat_comparable,
}
use access_management.PolicyIndex.State.{
  add_or_update, IndexError, Outcome, done, refused, ModuleId, Wrapper, Index, Entry, linked,
  unlink_pruning, clear_found, add_unless, delete_found, register, other_file, update,
  old_policy_id, add_policy, add_or_update_entry, delete_file, delete_entry,
}
use access_management.PolicyIndex.Links.{
  has_link, has_id, has_link-delete, has_link-unlink_pruning, has_id-linked, SameFiles,
  dependencies-add_deps, dependents-add_deps, add_deps-SameFiles,
}
use access_management.PolicyIndex.Invariant.{IsConsistent}
use access_management.PolicyIndex.Additions.{
  entered, update-IsConsistent, clear_found-new_module, clear_found-IsConsistent,
}

-- A refused AddOrUpdate leaves the index as it was.
pub add_or_update_entry-refused :
    (entry : Entry) (idx : Index) (e : IndexError)
    → (add_or_update_entry entry idx).1 ≡ refused e
    → (add_or_update_entry entry idx).0 ≡ idx
unfolding add_or_update_entry
add_or_update_entry-refused entry idx e = by_policy entry.policy
  where
    by_other :
        (p : Wrapper) (o : Option Str)
        → (add_unless entry.file p idx o).1 ≡ refused e
        → (add_unless entry.file p idx o).0 ≡ idx
    by_other p (some f) h = refl
    by_other p none h = absurd (ground arith)

    by_policy :
        (o : Option Wrapper)
        → (add_policy entry.file idx o).1 ≡ refused e
        → (add_policy entry.file idx o).0 ≡ idx
    by_policy none h = refl
    by_policy (some p) h = by_other p (other_file entry.file (lookup p.id idx.mod_id_to_file)) h

-- What an AddOrUpdate of `p` from `file` answers and leaves, where the file held `held` before: no
-- error but an add-or-update event for the module, which names as old module the one that the file
-- held if that was another; the file and the module hold each other; the module's dependencies are
-- the policy's, and the event lists the modules that depend on it.
abbrev pub Stores : Str → Wrapper → Option ModuleId → Index × Outcome → Type 0
Stores file p held r =
    (old : Option ModuleId) × (ids : List ModuleId) × (r.1 ≡ done (add_or_update p.id old ids))
    × ((m : ModuleId) → (old ≡ some m) ↔ ((held ≡ some m) × ((m == p.id) ≡ false)))
    × (lookup file r.0.file_to_mod_id ≡ some p.id)
    × (lookup p.id r.0.mod_id_to_file ≡ some file)
    × ((y : ModuleId) → has_link r.0.dependencies p.id y ≡ has_id y p.dependencies)
    × ((x : ModuleId) → has_id x ids ≡ has_link r.0.dependencies x p.id)

no_links :
    (idx : Index) (x y : ModuleId)
    → IsConsistent idx
    → lookup x idx.mod_id_to_file ≡ none
    → has_link idx.dependencies x y ≡ false
no_links idx x y c n = ground (arith, c.depending x y)

old_policy_id_iff :
    (id : ModuleId) (held : Option ModuleId) (m : ModuleId)
    → (old_policy_id id held ≡ some m) ↔ ((held ≡ some m) × ((m == id) ≡ false))
unfolding old_policy_id
old_policy_id_iff id none m = ((λ h. absurd (ground (arith, h))), (λ h. absurd (ground (arith, h))))
old_policy_id_iff id (some old) m = ((λ h. ground (arith, h)), (λ h. ground (arith, h)))

module _ (file : Str) (p : Wrapper) (idx : Index)
    (free : other_file file (lookup p.id idx.mod_id_to_file) ≡ none) (c : IsConsistent idx) where
  abbrev cleared : Index
  cleared = clear_found file idx (lookup file idx.file_to_mod_id)

  update-Stores : Stores file p (lookup file idx.file_to_mod_id) (update file p idx)
  unfolding update register
  update-Stores = (
    old_policy_id p.id (lookup file idx.file_to_mod_id),
    linked (update file p idx).0.dependents p.id,
    refl,
    old_policy_id_iff p.id (lookup file idx.file_to_mod_id),
    ground (
      arith,
      (add_deps-SameFiles p.id p.dependencies (entered file p cleared)).0,
      lookup-insert file file p.id cleared.file_to_mod_id,
      str_eq_iff file file,
    ),
    ground (
      arith,
      (add_deps-SameFiles p.id p.dependencies (entered file p cleared)).1,
      lookup-insert p.id p.id file cleared.mod_id_to_file,
    ),
    (λ y. ground (
      arith,
      dependencies-add_deps p.id p.dependencies (entered file p cleared) p.id y,
      no_links cleared p.id y (clear_found-IsConsistent file idx _ refl c)
          (clear_found-new_module file p.id idx _ refl free c),
    )),
    (λ x. ground (
      arith,
      has_id-linked (update file p idx).0.dependents p.id x,
      (update-IsConsistent file p idx free c).converse x p.id,
    )),
  )

-- In a consistent index, AddOrUpdate of a policy that no other file defines succeeds: it answers an
-- add-or-update event for the policy's module, with the file's former module if that was another
-- one. After it the file and the module hold each other, the module's dependencies are the
-- policy's, whatever they were before, and the event lists exactly the modules that depend on it.
pub add_or_update_entry-Stores :
    (file : Str) (p : Wrapper) (idx : Index)
    → other_file file (lookup p.id idx.mod_id_to_file) ≡ none
    → IsConsistent idx
    → Stores file p
        (lookup file idx.file_to_mod_id)
        (add_or_update_entry (record { file = file; policy = some p }) idx)
unfolding add_or_update_entry add_policy add_unless
add_or_update_entry-Stores file p idx free c =
    subst (λ o. Stores file p (lookup file idx.file_to_mod_id) (add_unless file p idx o)) (sym free)
      (update-Stores file p idx free c)

-- The two hold the same entries, in whatever order.
abbrev pub SameIndex : Index → Index → Type 0
SameIndex a b =
    ((f : Str) → lookup f a.file_to_mod_id ≡ lookup f b.file_to_mod_id)
    × ((m : ModuleId) → lookup m a.mod_id_to_file ≡ lookup m b.mod_id_to_file)
    × ((m : ModuleId) → is_some (lookup m a.executables) ≡ is_some (lookup m b.executables))
    × ((x y : ModuleId) → has_link a.dependencies x y ≡ has_link b.dependencies x y)
    × ((x y : ModuleId) → has_link a.dependents x y ≡ has_link b.dependents x y)

module _ (file : Str) (p : Wrapper) (idx : Index) (c : IsConsistent idx)
    (new_file : lookup file idx.file_to_mod_id ≡ none)
    (new_module : lookup p.id idx.mod_id_to_file ≡ none) where
  abbrev registered : Index
  registered = register file p idx

  same : SameFiles registered (entered file p idx)
  unfolding register
  same = add_deps-SameFiles p.id p.dependencies (entered file p idx)

  dependencies-registered :
      (x y : ModuleId)
      → has_link registered.dependencies x y
        ≡ (((p.id == x) && has_id y p.dependencies) || has_link idx.dependencies x y)
  unfolding register
  dependencies-registered x y = dependencies-add_deps p.id p.dependencies (entered file p idx) x y

  dependents-registered :
      (x y : ModuleId)
      → has_link registered.dependents x y
        ≡ (((p.id == y) && has_id x p.dependencies) || has_link idx.dependents x y)
  unfolding register
  dependents-registered x y = dependents-add_deps p.id p.dependencies (entered file p idx) x y

  undo_file :
      (f : Str) → lookup f (delete file registered.file_to_mod_id) ≡ lookup f idx.file_to_mod_id
  undo_file f = ground (
    arith,
    same.0,
    lookup-delete file f registered.file_to_mod_id,
    lookup-insert file f p.id idx.file_to_mod_id,
    new_file,
    str_eq_iff file f,
  )

  undo_module :
      (m : ModuleId)
      → lookup m (delete p.id registered.mod_id_to_file) ≡ lookup m idx.mod_id_to_file
  undo_module m = ground (
    arith,
    same.1,
    lookup-delete p.id m registered.mod_id_to_file,
    lookup-insert p.id m file idx.mod_id_to_file,
    new_module,
  )

  undo_executable :
      (m : ModuleId)
      → is_some (lookup m (delete p.id registered.executables)) ≡ is_some (lookup m idx.executables)
  undo_executable m = ground (
    arith,
    same.2,
    lookup-delete p.id m registered.executables,
    lookup-insert p.id m tt idx.executables,
    new_module,
    c.executable p.id,
  )

  undo_dependencies :
      (x y : ModuleId)
      → has_link (delete p.id registered.dependencies) x y ≡ has_link idx.dependencies x y
  undo_dependencies x y = ground (
    arith,
    has_link-delete p.id registered.dependencies x y,
    dependencies-registered x y,
    no_links idx p.id y c new_module,
  )

  undo_dependents :
      (x y : ModuleId)
      → has_link
          (unlink_pruning p.id (linked registered.dependencies p.id) registered.dependents)
          x
          y
        ≡ has_link idx.dependents x y
  undo_dependents x y = ground (
    arith,
    dependents-registered x y,
    dependencies-registered p.id x,
    has_id-linked registered.dependencies p.id x,
    has_link-unlink_pruning p.id (linked registered.dependencies p.id) registered.dependents x y,
    no_links idx p.id x c new_module,
    c.converse p.id x,
  )

  undone : SameIndex (delete_file file p.id registered) idx
  unfolding delete_file
  undone = (undo_file, undo_module, undo_executable, undo_dependencies, undo_dependents)

  registered_file : lookup file registered.file_to_mod_id ≡ some p.id
  registered_file =
      ground (arith, same.0, lookup-insert file file p.id idx.file_to_mod_id, str_eq_iff file file)

  added : (add_or_update_entry (record { file = file; policy = some p }) idx).0 ≡ registered
  unfolding add_or_update_entry add_policy add_unless update other_file clear_found
  added =
      subst (λ o. (add_unless file p idx (other_file file o)).0 ≡ registered) (sym new_module)
        (subst (λ o. register file p (clear_found file idx o) ≡ registered) (sym new_file) refl)

  deleted : SameIndex (delete_entry (record { file = file; policy = some p }) registered).0 idx
  unfolding delete_entry delete_found
  deleted =
      subst (λ o. SameIndex (delete_found file registered o).0 idx) (sym registered_file) undone

  -- In a consistent index, Delete undoes an AddOrUpdate of a new policy from a new file: all five
  -- maps read as before.
  pub delete_entry-add_or_update_entry :
      SameIndex
        (delete_entry
          (record { file = file; policy = some p })
          (add_or_update_entry (record { file = file; policy = some p }) idx).0).0
        idx
  delete_entry-add_or_update_entry =
      subst (λ i. SameIndex (delete_entry (record { file = file; policy = some p }) i).0 idx)
        (sym added) deleted
