-- ===== src/PolicyIndex/Examples.antt =====
-- A small index, and the theorems about updates of it.
use access_management.Prelude.{
  ◌≡◌, List, refl, false, none, some, [], ◌∷◌, codes, lookup, insert, str_eq, put, str_comparable,
  nat_comparable,
}
use access_management.PolicyIndex.State.{
  ModuleId, Wrapper, Entry, Index, duplicate_policy, empty_index, other_file, add_unless,
  add_policy, update, register, clear_found, add_deps, add_dep, add_or_update_entry, delete_entry,
}
use access_management.PolicyIndex.Invariant.{
  IsConsistent, empty-IsConsistent, delete_entry-IsConsistent,
}
use access_management.PolicyIndex.Additions.{add_or_update_entry-IsConsistent}
use access_management.PolicyIndex.Dependents.{get_dependents}
use access_management.PolicyIndex.Links.{has_id}
use access_management.PolicyIndex.Reachability.{Listed, get_dependents-Reaches}
use access_management.PolicyIndex.Updates.{
  Stores, SameIndex, add_or_update_entry-Stores, add_or_update_entry-refused,
  delete_entry-add_or_update_entry,
}

-- a policy that imports the module 7
abbrev doc : Wrapper
doc = record { id = 5; is_derived_roles = false; dependencies = 7 ∷ [] }

abbrev doc_entry : Entry
doc_entry = record { file = codes "doc.yaml"; policy = some doc }

abbrev copy_entry : Entry
copy_entry = record { file = codes "copy.yaml"; policy = some doc }

abbrev one_policy : Index
one_policy = record {
  file_to_mod_id = (codes "doc.yaml", 5) ∷ [];
  executables = (5, tt) ∷ [];
  dependents = (7, (5, tt) ∷ []) ∷ [];
  dependencies = (5, (7, tt) ∷ []) ∷ [];
  mod_id_to_file = (5, codes "doc.yaml") ∷ [];
}

adding_doc : (add_or_update_entry doc_entry empty_index).0 ≡ one_policy
unfolding add_or_update_entry add_policy add_unless update other_file clear_found register add_deps
    add_dep put lookup insert
adding_doc = refl

one_policy-IsConsistent : IsConsistent (add_or_update_entry doc_entry empty_index).0
one_policy-IsConsistent = add_or_update_entry-IsConsistent doc_entry empty_index empty-IsConsistent

-- witnesses
add_or_update_entry-IsConsistent_example :
    IsConsistent (add_or_update_entry copy_entry (add_or_update_entry doc_entry empty_index).0).0
add_or_update_entry-IsConsistent_example =
    add_or_update_entry-IsConsistent copy_entry (add_or_update_entry doc_entry empty_index).0
      one_policy-IsConsistent

delete_entry-IsConsistent_example :
    IsConsistent (delete_entry doc_entry (add_or_update_entry doc_entry empty_index).0).0
delete_entry-IsConsistent_example =
    delete_entry-IsConsistent doc_entry (add_or_update_entry doc_entry empty_index).0
      one_policy-IsConsistent

add_or_update_entry-refused_example : (add_or_update_entry copy_entry one_policy).0 ≡ one_policy
unfolding add_or_update_entry add_policy add_unless other_file lookup str_eq
add_or_update_entry-refused_example =
    add_or_update_entry-refused copy_entry one_policy (duplicate_policy (codes "doc.yaml")) refl

add_or_update_entry-Stores_example :
    Stores (codes "doc.yaml") doc none (add_or_update_entry doc_entry empty_index)
unfolding other_file lookup
add_or_update_entry-Stores_example =
    add_or_update_entry-Stores (codes "doc.yaml") doc empty_index refl empty-IsConsistent

delete_entry-add_or_update_entry_example :
    SameIndex (delete_entry doc_entry (add_or_update_entry doc_entry empty_index).0).0 empty_index
unfolding lookup
delete_entry-add_or_update_entry_example =
    delete_entry-add_or_update_entry (codes "doc.yaml") doc empty_index empty-IsConsistent refl refl

-- 5 depends on 7, which depends on 9, which depends on 7
abbrev cyclic : Index
cyclic = record empty_index { dependents = (7, (5, tt) ∷ (9, tt) ∷ []) ∷ (9, (7, tt) ∷ []) ∷ [] }

get_dependents-Reaches_example :
    (m : List (ModuleId × List ModuleId)) × (get_dependents cyclic (7 ∷ 9 ∷ []) ≡ some m)
    × ((id : ModuleId) → Listed cyclic m id (has_id id (7 ∷ 9 ∷ [])))
get_dependents-Reaches_example = get_dependents-Reaches cyclic (7 ∷ 9 ∷ [])
