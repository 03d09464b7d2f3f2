-- ===== src/PolicyIndex/State.antt =====
-- The maps of `index` and its operations AddOrUpdate and Delete (internal/storage/index/index.go).
use access_management.Prelude.{
  ℕ, Bool, ◌||◌, Option, none, some, List, [], ◌∷◌, map, Str, ◌==◌, lookup, insert, delete, is_some,
  is_empty, str_eq, str_comparable, nat_comparable, or_empty, put, remove, prune, if◌then◌else◌,
}

-- namer.ModuleID, a 64-bit hash of the policy's name
abbrev pub ModuleId : Type 0
ModuleId = ℕ

-- ModuleIDSet
abbrev pub ModuleIdSet : Type 0
ModuleIdSet = List (ModuleId × Unit)

-- The part of policy.Wrapper that the index reads.
pub record Wrapper : Type 0 where
  pub id : ModuleId
  pub is_derived_roles : Bool
  pub dependencies : List ModuleId

pub record Entry : Type 0 where
  pub file : Str
  pub policy : Option Wrapper

pub record Index : Type 0 where
  pub file_to_mod_id : List (Str × ModuleId)
  pub executables : ModuleIdSet
  pub dependents : List (ModuleId × ModuleIdSet)
  pub dependencies : List (ModuleId × ModuleIdSet)
  pub mod_id_to_file : List (ModuleId × Str)

abbrev pub empty_index : Index
empty_index = record {
  file_to_mod_id = [];
  executables = [];
  dependents = [];
  dependencies = [];
  mod_id_to_file = [];
}

-- storage.Event, by the kinds that the index makes
pub data Event : Type 0 where
  nop : Event
  add_or_update : ModuleId → Option ModuleId → List ModuleId → Event
  delete_or_disable : ModuleId → List ModuleId → Event

-- ErrInvalidEntry, ErrDuplicatePolicy
pub data IndexError : Type 0 where
  invalid_entry : IndexError
  duplicate_policy : Str → IndexError

-- The index after an operation, with its event or its error.
pub data Outcome : Type 0 where
  done : Event → Outcome
  refused : IndexError → Outcome

-- The keys of a set, in the order of iteration.
unfoldable pub members : ModuleIdSet → List ModuleId
members s = map (λ p. p.0) s

-- idx.dependents[id], idx.dependencies[id]
unfoldable pub linked : List (ModuleId × ModuleIdSet) → ModuleId → List ModuleId
unfolding members
linked m id = members (or_empty (lookup id m))

-- Removes `id` from the dependents of each of its dependencies.
unfoldable pub unlink :
    ModuleId → List ModuleId → List (ModuleId × ModuleIdSet) → List (ModuleId × ModuleIdSet)
unlink id [] dependents = dependents
unlink id (dep ∷ deps) dependents = unlink id deps (remove dep id dependents)

-- The same, with the sets that become empty removed.
unfoldable pub unlink_pruning :
    ModuleId → List ModuleId → List (ModuleId × ModuleIdSet) → List (ModuleId × ModuleIdSet)
unlink_pruning id [] dependents = dependents
unlink_pruning id (dep ∷ deps) dependents =
    unlink_pruning id deps (prune dep (remove dep id dependents))

-- addDep
unfoldable pub add_dep : ModuleId → ModuleId → Index → Index
add_dep child parent idx = record idx {
  dependencies = put child parent tt idx.dependencies;
  dependents = put parent child tt idx.dependents;
}

unfoldable pub add_deps : ModuleId → List ModuleId → Index → Index
unfolding add_dep
add_deps child [] idx = idx
add_deps child (p ∷ ps) idx = add_deps child ps (add_dep child p idx)

-- The state of an existing file is cleared first.
unfoldable pub clear_file : Str → ModuleId → Index → Index
unfolding unlink linked
clear_file file old idx = record {
  file_to_mod_id = delete file idx.file_to_mod_id;
  executables = delete old idx.executables;
  dependents = unlink old (linked idx.dependencies old) idx.dependents;
  dependencies = delete old idx.dependencies;
  mod_id_to_file = delete old idx.mod_id_to_file;
}

-- By what idx.fileToModID holds for the file.
unfoldable pub clear_found : Str → Index → Option ModuleId → Index
unfolding clear_file
clear_found file idx none = idx
clear_found file idx (some old) = clear_file file old idx

-- evt.OldPolicyID
unfoldable pub old_policy_id : ModuleId → Option ModuleId → Option ModuleId
old_policy_id id none = none
old_policy_id id (some old) = if old == id then none else some old

-- The entries of the policy itself.
unfoldable pub register : Str → Wrapper → Index → Index
unfolding add_deps
register file p idx = add_deps p.id p.dependencies (record idx {
  file_to_mod_id = insert file p.id idx.file_to_mod_id;
  mod_id_to_file = insert p.id file idx.mod_id_to_file;
  executables = if p.is_derived_roles then idx.executables else insert p.id tt idx.executables;
})

-- Whether the module is defined in another file already.
unfoldable pub other_file : Str → Option Str → Option Str
other_file file none = none
other_file file (some f) = if str_eq f file then none else some f

-- The part of AddOrUpdate after its two guards.
unfoldable pub update : Str → Wrapper → Index → Index × Outcome
unfolding register clear_found linked
update file p idx =
    let updated = register file p (clear_found file idx (lookup file idx.file_to_mod_id)) in
    (
      updated,
      done (
          add_or_update p.id (old_policy_id p.id (lookup file idx.file_to_mod_id))
            (linked updated.dependents p.id)),
    )

-- By the other file that defines the policy.
unfoldable pub add_unless : Str → Wrapper → Index → Option Str → Index × Outcome
unfolding update
add_unless file p idx (some f) = (idx, refused (duplicate_policy f))
add_unless file p idx none = update file p idx

unfoldable pub add_policy : Str → Index → Option Wrapper → Index × Outcome
unfolding add_unless
add_policy file idx none = (idx, refused invalid_entry)
add_policy file idx (some p) =
    add_unless file p idx (other_file file (lookup p.id idx.mod_id_to_file))

-- AddOrUpdate
unfoldable pub add_or_update_entry : Entry → Index → Index × Outcome
unfolding add_policy
add_or_update_entry entry idx = add_policy entry.file idx entry.policy

unfoldable pub delete_file : Str → ModuleId → Index → Index
unfolding unlink_pruning linked
delete_file file id idx = record {
  file_to_mod_id = delete file idx.file_to_mod_id;
  executables = delete id idx.executables;
  dependents = unlink_pruning id (linked idx.dependencies id) idx.dependents;
  dependencies = delete id idx.dependencies;
  mod_id_to_file = delete id idx.mod_id_to_file;
}

-- By what idx.fileToModID holds for the file.
unfoldable pub delete_found : Str → Index → Option ModuleId → Index × Outcome
unfolding delete_file linked
delete_found file idx none = (idx, done nop)
delete_found file idx (some id) =
    let deleted = delete_file file id idx in
    (deleted, done (delete_or_disable id (linked deleted.dependents id)))

-- Delete
unfoldable pub delete_entry : Entry → Index → Index × Outcome
unfolding delete_found
delete_entry entry idx = delete_found entry.file idx (lookup entry.file idx.file_to_mod_id)

-- GetFiles
unfoldable pub get_files : Index → List Str
get_files idx = map (λ p. p.0) idx.file_to_mod_id

abbrev is_compiled : Index → ModuleId → Bool
is_compiled idx id = is_some (lookup id idx.executables) || is_empty (linked idx.dependents id)

compiled_of : Index → List (ModuleId × Str) → List ModuleId
compiled_of idx [] = []
compiled_of idx ((id, f) ∷ m) =
    let rest = compiled_of idx m in if is_compiled idx id then id ∷ rest else rest

-- The modules that GetAllCompilationUnitsWithCount compiles: executable, or without dependents.
unfoldable pub to_compile : Index → List ModuleId
unfolding compiled_of
to_compile idx = compiled_of idx idx.mod_id_to_file
