-- ===== src/ScopePerms/Examples.antt =====
-- A tracker with two policies, and the theorems about it.
use access_management.Prelude.{
  ◌≡◌, refl, true, false, none, some, [], ◌∷◌, Str, codes, lookup, insert, put, find, str_eq,
  str_comparable, if◌then◌else◌,
}
use access_management.Check.Types.{resource, principal, permissions_unspecified, override_parent}
use access_management.ScopePerms.Tracker.{
  Tracker, new_tracker, add_setting, remove_policy, constrained, normalise, check_setting,
  conflict_of, others, conflicts_error, conflicts, conflicts_of, disagree, disagree_from,
  record_setting, remove_from, has_setting,
}
use access_management.ScopePerms.Tracking.{
  setting, IsTracker, new_tracker-IsTracker, add_setting-IsTracker, setting-add_setting,
}
use access_management.ScopePerms.Agreement.{
  Agrees, check_setting-none, add_setting-Agrees, conflicts_error-none,
}

abbrev doc : Str
doc = codes "doc"

abbrev ann : Str
ann = codes "ann"

abbrev acme : Str
acme = codes "acme"

abbrev one : Tracker
one = add_setting resource doc acme permissions_unspecified new_tracker

abbrev one_setting : Tracker
one_setting = record {
  scopes = (acme, (doc, override_parent) ∷ []) ∷ [];
  policies = (doc, acme) ∷ [];
}

one_is : one ≡ one_setting
unfolding add_setting constrained normalise has_setting record_setting remove_policy remove_from
    find put lookup insert
one_is = refl

one-IsTracker : IsTracker one
one-IsTracker =
    add_setting-IsTracker resource doc acme permissions_unspecified new_tracker
      new_tracker-IsTracker

one_without_conflict : conflicts_error one ≡ none
unfolding conflicts_error conflicts conflicts_of disagree disagree_from
one_without_conflict = rw one_is refl

ann_may_enter : check_setting principal ann acme override_parent [] one ≡ none
unfolding check_setting constrained normalise others conflict_of lookup str_eq
ann_may_enter = rw one_is refl

doc_is_set : setting acme doc one ≡ some override_parent
unfolding find lookup str_eq
doc_is_set = rw one_is refl

principal_bound : constrained principal ≡ true
unfolding constrained
principal_bound = refl

doc_is_not_ann : str_eq doc ann ≡ false
unfolding str_eq
doc_is_not_ann = refl

doc_is_not_empty : str_eq doc [] ≡ false
unfolding str_eq
doc_is_not_empty = refl

-- witnesses
add_setting-IsTracker_example : IsTracker (add_setting principal ann acme override_parent one)
add_setting-IsTracker_example =
    add_setting-IsTracker principal ann acme override_parent one one-IsTracker

setting-add_setting_example :
    setting acme ann (add_setting principal ann acme override_parent one) ≡ (
      if str_eq ann ann
      then (if str_eq acme acme then some (normalise override_parent) else none)
      else setting acme ann one)
setting-add_setting_example =
    setting-add_setting principal ann acme acme ann override_parent one principal_bound
      one-IsTracker

conflicts_error-none_example : Agrees one
conflicts_error-none_example = conflicts_error-none one one-IsTracker one_without_conflict

check_setting-none_example : override_parent ≡ normalise override_parent
check_setting-none_example =
    check_setting-none principal ann acme [] override_parent override_parent one doc principal_bound
      ann_may_enter doc_is_set doc_is_not_ann doc_is_not_empty

add_setting-Agrees_example :
    Agrees (add_setting principal ann acme override_parent (remove_policy [] one))
add_setting-Agrees_example =
    add_setting-Agrees principal ann acme [] override_parent one one-IsTracker
      (conflicts_error-none one one-IsTracker one_without_conflict) ann_may_enter
