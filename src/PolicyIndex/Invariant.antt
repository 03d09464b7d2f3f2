-- ===== src/PolicyIndex/Invariant.antt =====
-- The consistency of the index, and that Delete keeps it.
use access_management.Prelude.{
  ◌≡◌, refl, true, ◌&&◌, not, Option, none, some, Str, ◌==◌, arith, lookup, delete, lookup-delete,
  is_some, str_eq_iff, str_comparable, nat_comparable, find,
}
use access_management.PolicyIndex.State.{
  ModuleId, Index, Entry, empty_index, linked, clear_file, delete_found, delete_file, delete_entry,
}
use access_management.PolicyIndex.Links.{
  Links, has_link, has_id, has_link-delete, has_link-unlink, has_link-unlink_pruning, has_id-linked,
}

-- Files and modules are in one-to-one correspondence, the dependents are the converse of the
-- dependencies, and only indexed modules have dependencies or are executable.
pub record IsConsistent (idx : Index) : Type 0 where
  pub file_of :
      (f : Str) (m : ModuleId)
      → lookup f idx.file_to_mod_id ≡ some m
      → lookup m idx.mod_id_to_file ≡ some f
  pub module_of :
      (f : Str) (m : ModuleId)
      → lookup m idx.mod_id_to_file ≡ some f
      → lookup f idx.file_to_mod_id ≡ some m
  pub converse : (x y : ModuleId) → has_link idx.dependencies x y ≡ has_link idx.dependents y x
  pub depending :
      (x y : ModuleId)
      → has_link idx.dependencies x y ≡ true
      → is_some (lookup x idx.mod_id_to_file) ≡ true
  pub executable :
      (x : ModuleId)
      → is_some (lookup x idx.executables) ≡ true
      → is_some (lookup x idx.mod_id_to_file) ≡ true

pub empty-IsConsistent : IsConsistent empty_index
unfolding lookup find
empty-IsConsistent = record {
  file_of = λ f m h. cc;
  module_of = λ f m h. cc;
  converse = λ x y. refl;
  depending = λ x y h. cc;
  executable = λ x h. cc;
}

-- The entries of `file` and `id` deleted, with `dependents` in place of the dependents.
abbrev cleared : Str → ModuleId → Links → Index → Index
cleared file id dependents idx = record {
  file_to_mod_id = delete file idx.file_to_mod_id;
  executables = delete id idx.executables;
  dependents = dependents;
  dependencies = delete id idx.dependencies;
  mod_id_to_file = delete id idx.mod_id_to_file;
}

module _ (file : Str) (id : ModuleId) (ds : Links) (idx : Index)
    (unlinked : (x y : ModuleId)
      → has_link ds x y
        ≡ (not ((id == y) && has_id x (linked idx.dependencies id)) && has_link idx.dependents x y))
    (at : lookup file idx.file_to_mod_id ≡ some id) (c : IsConsistent idx) where
  cleared-file_of :
      (f : Str) (m : ModuleId)
      → lookup f (delete file idx.file_to_mod_id) ≡ some m
      → lookup m (delete id idx.mod_id_to_file) ≡ some f
  cleared-file_of f m h = ground (
    arith,
    lookup-delete file f idx.file_to_mod_id,
    lookup-delete id m idx.mod_id_to_file,
    c.file_of f m,
    c.file_of file id at,
    str_eq_iff file f,
  )

  cleared-module_of :
      (f : Str) (m : ModuleId)
      → lookup m (delete id idx.mod_id_to_file) ≡ some f
      → lookup f (delete file idx.file_to_mod_id) ≡ some m
  cleared-module_of f m h = ground (
    arith,
    lookup-delete file f idx.file_to_mod_id,
    lookup-delete id m idx.mod_id_to_file,
    c.module_of f m,
    at,
    str_eq_iff file f,
  )

  cleared-converse : (x y : ModuleId) → has_link (delete id idx.dependencies) x y ≡ has_link ds y x
  cleared-converse x y = ground (
    arith,
    has_link-delete id idx.dependencies x y,
    unlinked y x,
    has_id-linked idx.dependencies id y,
    c.converse x y,
  )

  cleared-IsConsistent : IsConsistent (cleared file id ds idx)
  cleared-IsConsistent = record {
    file_of = cleared-file_of;
    module_of = cleared-module_of;
    converse = cleared-converse;
    depending = λ x y h. ground (
      arith,
      has_link-delete id idx.dependencies x y,
      lookup-delete id x idx.mod_id_to_file,
      c.depending x y,
    );
    executable = λ x h. ground (
      arith,
      lookup-delete id x idx.executables,
      lookup-delete id x idx.mod_id_to_file,
      c.executable x,
    );
  }

pub clear_file-IsConsistent :
    (file : Str) (id : ModuleId) (idx : Index)
    → lookup file idx.file_to_mod_id ≡ some id
    → IsConsistent idx
    → IsConsistent (clear_file file id idx)
unfolding clear_file
clear_file-IsConsistent file id idx =
    cleared-IsConsistent file id _ idx
      (has_link-unlink id (linked idx.dependencies id) idx.dependents)

delete_file-IsConsistent :
    (file : Str) (id : ModuleId) (idx : Index)
    → lookup file idx.file_to_mod_id ≡ some id
    → IsConsistent idx
    → IsConsistent (delete_file file id idx)
unfolding delete_file
delete_file-IsConsistent file id idx =
    cleared-IsConsistent file id _ idx
      (has_link-unlink_pruning id (linked idx.dependencies id) idx.dependents)

delete_found-IsConsistent :
    (file : Str) (idx : Index) (o : Option ModuleId)
    → lookup file idx.file_to_mod_id ≡ o
    → IsConsistent idx
    → IsConsistent (delete_found file idx o).0
unfolding delete_found
delete_found-IsConsistent file idx none e c = c
delete_found-IsConsistent file idx (some id) e c = delete_file-IsConsistent file id idx e c

-- Delete keeps the index consistent.
pub delete_entry-IsConsistent :
    (entry : Entry) (idx : Index) → IsConsistent idx → IsConsistent (delete_entry entry idx).0
unfolding delete_entry
delete_entry-IsConsistent entry idx =
    delete_found-IsConsistent entry.file idx (lookup entry.file idx.file_to_mod_id) refl
