-- ===== src/PolicyIndex/Additions.antt =====
-- AddOrUpdate keeps the index consistent.
use access_management.Prelude.{
  ◌≡◌, refl, true, Option, none, some, Str, arith, lookup, insert, lookup-insert, lookup-delete,
  is_some, str_eq_iff, str_comparable, nat_comparable, Option-cases, inl, inr, if◌then◌else◌,
}
use access_management.PolicyIndex.State.{
  ModuleId, Wrapper, Index, Entry, clear_file, clear_found, add_unless, register, other_file,
  update, add_policy, add_or_update_entry,
}
use access_management.PolicyIndex.Links.{
  dependencies-add_deps, dependents-add_deps, add_deps-SameFiles,
}
use access_management.PolicyIndex.Invariant.{IsConsistent, clear_file-IsConsistent}

-- The entries of the policy, before its dependencies.
abbrev pub entered : Str → Wrapper → Index → Index
entered file p idx = record idx {
  file_to_mod_id = insert file p.id idx.file_to_mod_id;
  mod_id_to_file = insert p.id file idx.mod_id_to_file;
  executables = if p.is_derived_roles then idx.executables else insert p.id tt idx.executables;
}

module _ (file : Str) (p : Wrapper) (idx : Index) (new_file : lookup file idx.file_to_mod_id ≡ none)
    (new_module : lookup p.id idx.mod_id_to_file ≡ none) (c : IsConsistent idx) where
  entered-file_of :
      (f : Str) (m : ModuleId)
      → lookup f (insert file p.id idx.file_to_mod_id) ≡ some m
      → lookup m (insert p.id file idx.mod_id_to_file) ≡ some f
  entered-file_of f m h = ground (
    arith,
    lookup-insert file f p.id idx.file_to_mod_id,
    lookup-insert p.id m file idx.mod_id_to_file,
    c.file_of f m,
    new_module,
    str_eq_iff file f,
  )

  entered-module_of :
      (f : Str) (m : ModuleId)
      → lookup m (insert p.id file idx.mod_id_to_file) ≡ some f
      → lookup f (insert file p.id idx.file_to_mod_id) ≡ some m
  entered-module_of f m h = ground (
    arith,
    lookup-insert file f p.id idx.file_to_mod_id,
    lookup-insert p.id m file idx.mod_id_to_file,
    c.module_of f m,
    new_file,
    str_eq_iff file f,
  )

  entered-executable :
      (m : ModuleId)
      → is_some (lookup m (entered file p idx).executables) ≡ true
      → is_some (lookup m (entered file p idx).mod_id_to_file) ≡ true
  entered-executable m h = ground (
    arith,
    lookup-insert p.id m tt idx.executables,
    lookup-insert p.id m file idx.mod_id_to_file,
    c.executable m,
  )

  register-IsConsistent : IsConsistent (register file p idx)
  unfolding register
  register-IsConsistent =
      let same = add_deps-SameFiles p.id p.dependencies (entered file p idx) in
      record {
        file_of = λ f m. rw (same.0, same.1) (entered-file_of f m);
        module_of = λ f m. rw (same.0, same.1) (entered-module_of f m);
        converse = λ x y. ground (
          arith,
          dependencies-add_deps p.id p.dependencies (entered file p idx) x y,
          dependents-add_deps p.id p.dependencies (entered file p idx) y x,
          c.converse x y,
        );
        depending = λ x y h. rw (same.1) (
            ground (
              arith,
              dependencies-add_deps p.id p.dependencies (entered file p idx) x y,
              lookup-insert p.id x file idx.mod_id_to_file,
              c.depending x y,
            ));
        executable = λ m. rw (same.1, same.2) (entered-executable m);
      }

pub other_file-none :
    (file : Str) (o : Option Str) (f : Str) → other_file file o ≡ none → o ≡ some f → f ≡ file
unfolding other_file
other_file-none file none f h e = cc
other_file-none file (some g) f h e = ground (arith, str_eq_iff g file)

pub clear_found-IsConsistent :
    (file : Str) (idx : Index) (o : Option ModuleId)
    → lookup file idx.file_to_mod_id ≡ o
    → IsConsistent idx
    → IsConsistent (clear_found file idx o)
unfolding clear_found
clear_found-IsConsistent file idx none e c = c
clear_found-IsConsistent file idx (some id) e c = clear_file-IsConsistent file id idx e c

pub clear_found-new_file :
    (file : Str) (idx : Index) (o : Option ModuleId)
    → lookup file idx.file_to_mod_id ≡ o
    → lookup file (clear_found file idx o).file_to_mod_id ≡ none
unfolding clear_found clear_file
clear_found-new_file file idx none e = e
clear_found-new_file file idx (some id) e =
    ground (arith, lookup-delete file file idx.file_to_mod_id, str_eq_iff file file)

pub clear_found-new_module :
    (file : Str) (id : ModuleId) (idx : Index) (o : Option ModuleId)
    → lookup file idx.file_to_mod_id ≡ o
    → other_file file (lookup id idx.mod_id_to_file) ≡ none
    → IsConsistent idx
    → lookup id (clear_found file idx o).mod_id_to_file ≡ none
unfolding clear_found clear_file
clear_found-new_module file id idx none e h c = elim (Option-cases (lookup id idx.mod_id_to_file)) [
  | inl n ↦ n
  | inr (f, s) ↦
      ground (arith, other_file-none file (lookup id idx.mod_id_to_file) f h s, c.module_of f id s)
]
clear_found-new_module file id idx (some old) e h c =
    elim (Option-cases (lookup id idx.mod_id_to_file)) [
      | inl n ↦ ground (arith, lookup-delete old id idx.mod_id_to_file)
      | inr (f, s) ↦ ground (
        arith,
        other_file-none file (lookup id idx.mod_id_to_file) f h s,
        c.module_of f id s,
        lookup-delete old id idx.mod_id_to_file,
      )
    ]

pub update-IsConsistent :
    (file : Str) (p : Wrapper) (idx : Index)
    → other_file file (lookup p.id idx.mod_id_to_file) ≡ none
    → IsConsistent idx
    → IsConsistent (update file p idx).0
unfolding update
update-IsConsistent file p idx h c =
    register-IsConsistent file p _ (clear_found-new_file file idx _ refl)
      (clear_found-new_module file p.id idx _ refl h c) (clear_found-IsConsistent file idx _ refl c)

add_unless-IsConsistent :
    (file : Str) (p : Wrapper) (idx : Index) (o : Option Str)
    → other_file file (lookup p.id idx.mod_id_to_file) ≡ o
    → IsConsistent idx
    → IsConsistent (add_unless file p idx o).0
unfolding add_unless
add_unless-IsConsistent file p idx (some f) h c = c
add_unless-IsConsistent file p idx none h c = update-IsConsistent file p idx h c

add_policy-IsConsistent :
    (file : Str) (idx : Index) (o : Option Wrapper)
    → IsConsistent idx
    → IsConsistent (add_policy file idx o).0
unfolding add_policy
add_policy-IsConsistent file idx none c = c
add_policy-IsConsistent file idx (some p) c = add_unless-IsConsistent file p idx _ refl c

-- AddOrUpdate keeps the index consistent, whether it succeeds or not.
pub add_or_update_entry-IsConsistent :
    (entry : Entry) (idx : Index)
    → IsConsistent idx
    → IsConsistent (add_or_update_entry entry idx).0
unfolding add_or_update_entry
add_or_update_entry-IsConsistent entry idx = add_policy-IsConsistent entry.file idx entry.policy
