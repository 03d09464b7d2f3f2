-- ===== src/Hierarchy/Values.antt =====
-- Hierarchy and its functions (internal/conditions/types/hierarchy.go).
use access_management.Prelude.{
  ℕ, zero, suc, ◌+◌, ◌-◌, Bool, true, false, not, Option, none, some, List, [], ◌∷◌, ◌++◌, Str,
  codes, ◌==◌, ltb, leb, length, get_elem?, take, lookup, str_eq, str_comparable, if◌then◌else◌,
}

abbrev pub Hierarchy : Type 0
Hierarchy = List Str

-- The index of types.Int, by sign.
pub data ℤ : Type 0 where
  pos negsuc : ℕ → ℤ

-- ref.Val, by the types that these functions distinguish. A `foreign` value is one of cel-go's.
pub data Val (F : Type 0) : Type 0 where
  hierarchy : Hierarchy → Val F
  bool_val : Bool → Val F
  string_val : Str → Val F
  int_val : ℤ → Val F
  error_val : Str → Val F
  no_such_overload_val : Val F
  foreign : F → Val F

-- cel-go's part: types.MaybeNoSuchOverloadErr, types.ValOrErr, and ConvertToNative of a list to a
-- slice of strings (`none` for a value that is no list).
pub record CelTypes (F : Type 0) : Type 0 where
  pub maybe_no_such_overload : Val F → Val F
  pub val_or_err : Val F → Val F
  pub as_strings : F → Option (Option (List Str))

-- strings.Split(s, "."), with what was read since the last dot.
unfoldable pub split_from : Str → Str → Hierarchy
split_from part [] = part ∷ []
split_from part (c ∷ s) =
    if c == b'.' then part ∷ split_from [] s else split_from (part ++ c ∷ []) s

unfoldable pub split : Str → Hierarchy
unfolding split_from
split s = split_from [] s

-- strings.Join(h, "."), which is ConvertToType to a string.
unfoldable pub join : Hierarchy → Str
join [] = []
join (x ∷ []) = x
join (x ∷ y ∷ h) = x ++ b'.' ∷ join (y ∷ h)

-- The loop `for i, s := range h` that compares other[i] with s. It is entered only when `other` is
-- at least as long, so that the second clause is not reached.
unfoldable pub matches : Hierarchy → Hierarchy → Bool
matches [] other = true
matches (s ∷ h) [] = false
matches (s ∷ h) (t ∷ other) = let rest = matches h other in if str_eq t s then rest else false

-- hierarchyAncestorOf
unfoldable pub ancestor_of : Hierarchy → Hierarchy → Bool
unfolding matches
ancestor_of h child = if leb (length child) (length h) then false else matches h child

-- hierarchyDescendentOf
unfoldable pub descendent_of : Hierarchy → Hierarchy → Bool
unfolding ancestor_of
descendent_of h parent = ancestor_of parent h

-- hierarchyImmediateParentOf
unfoldable pub immediate_parent_of : Hierarchy → Hierarchy → Bool
unfolding matches
immediate_parent_of h child = if not (length child == length h + 1) then false else matches h child

-- hierarchyImmediateChildOf
unfoldable pub immediate_child_of : Hierarchy → Hierarchy → Bool
unfolding immediate_parent_of
immediate_child_of h parent = immediate_parent_of parent h

-- The loop `for i := range n` that compares h[i] with other[i]; both are longer than `n`.
unfoldable pub matches_up_to : ℕ → Hierarchy → Hierarchy → Bool
matches_up_to zero h other = true
matches_up_to (suc n) (s ∷ h) (t ∷ other) =
    let rest = matches_up_to n h other in if str_eq s t then rest else false
matches_up_to (suc n) _ _ = false

-- hierarchySiblingOf
unfoldable pub sibling_of : Hierarchy → Hierarchy → Bool
unfolding matches_up_to
sibling_of h other =
    if not (length other == length h) then false else matches_up_to (length h - 1) h other

-- The shorter of the two first; `h` if they are as long.
abbrev pub by_length : Hierarchy → Hierarchy → Hierarchy × Hierarchy
by_length h other = if ltb (length other) (length h) then (other, h) else (h, other)

-- hierarchyOverlaps
unfoldable pub overlaps : Hierarchy → Hierarchy → Bool
unfolding matches
overlaps h other = let sorted = by_length h other in matches sorted.0 sorted.1

-- The loop of hierarchyCommonAncestors.
unfoldable pub common : Hierarchy → Hierarchy → Hierarchy
common [] long = []
common (s ∷ short) [] = []
common (s ∷ short) (t ∷ long) = let rest = common short long in if str_eq t s then s ∷ rest else []

-- longList[:size-1]: for a size of 0 the bound is negative and Go panics.
abbrev pub without_last : ℕ → Hierarchy → Option Hierarchy
without_last zero h = none
without_last (suc n) h = some (take n h)

abbrev pub common_of : Option Hierarchy → Option Hierarchy → Option Hierarchy
common_of (some short) (some long) = some (common short long)
common_of _ _ = none

-- hierarchyCommonAncestors; `none` is the panic.
unfoldable pub common_ancestors : Hierarchy → Hierarchy → Option Hierarchy
unfolding common
common_ancestors h other =
    let sorted = by_length h other in
    if length sorted.1 == length sorted.0
    then common_of (without_last (length sorted.1) sorted.0)
        (without_last (length sorted.1) sorted.1)
    else some (common sorted.0 sorted.1)

abbrev pub equal_at : Hierarchy → Hierarchy → Bool
equal_at h other = if not (length other == length h) then false else matches h other

module _ {F : Type 0} (cel : CelTypes F) where
  abbrev list_hierarchy : F → Option (Option (List Str)) → Val F
  list_hierarchy f none = cel.maybe_no_such_overload (foreign f)
  list_hierarchy f (some none) = error_val (codes "failed to convert list to string slice")
  list_hierarchy f (some (some h)) = hierarchy h

  -- unaryHierarchyFnImpl
  unfoldable pub unary_hierarchy_fn : Val F → Val F
  unfolding split
  unary_hierarchy_fn (hierarchy h) = hierarchy h
  unary_hierarchy_fn (string_val s) = hierarchy (split s)
  unary_hierarchy_fn (foreign f) = list_hierarchy f (cel.as_strings f)
  unary_hierarchy_fn v = cel.maybe_no_such_overload v

  -- toHierarchy and the error return that every function makes of it
  abbrev pub with_hierarchy : Val F → (Hierarchy → Val F) → Val F
  with_hierarchy (hierarchy h) f = f h
  with_hierarchy v f = cel.maybe_no_such_overload v

  -- Hierarchy.Equal
  unfoldable pub equal : Hierarchy → Val F → Val F
  unfolding matches
  equal h v = with_hierarchy v (λ other. bool_val (equal_at h other))

  abbrev ancestors_val : Option Hierarchy → Val F
  ancestors_val none = error_val (codes "panic")
  ancestors_val (some h) = hierarchy h

  -- hierarchyOneArgOverloads; an error value stands for the panic of hierarchyCommonAncestors.
  abbrev one_arg_overloads : List (Str × (Hierarchy → Hierarchy → Val F))
  one_arg_overloads =
      (codes "ancestorOf", λ h v. bool_val (ancestor_of h v))
      ∷ (codes "commonAncestors", λ h v. ancestors_val (common_ancestors h v))
      ∷ (codes "descendentOf", λ h v. bool_val (descendent_of h v))
      ∷ (codes "immediateChildOf", λ h v. bool_val (immediate_child_of h v))
      ∷ (codes "immediateParentOf", λ h v. bool_val (immediate_parent_of h v))
      ∷ (codes "overlaps", λ h v. bool_val (overlaps h v))
      ∷ (codes "siblingOf", λ h v. bool_val (sibling_of h v))
      ∷ []

  abbrev call_overload : Option (Hierarchy → Hierarchy → Val F) → Hierarchy → Val F → Val F
  call_overload none h v = no_such_overload_val
  call_overload (some f) h v = with_hierarchy v (λ other. f h other)

  -- Hierarchy.Receive
  unfoldable pub receive : Hierarchy → Str → List (Val F) → Val F
  unfolding lookup
  receive h function (v ∷ []) = call_overload (lookup function one_arg_overloads) h v
  receive h function _ = no_such_overload_val

  abbrev element : Option Str → Val F
  element none = error_val (codes "index out of range")
  element (some s) = string_val s

  -- Hierarchy.Get
  unfoldable pub get : Hierarchy → Val F → Val F
  get h (int_val (pos i)) = element (get_elem? h i)
  get h (int_val (negsuc i)) = error_val (codes "index out of range")
  get h v = cel.val_or_err v

  -- Hierarchy.Size
  unfoldable pub size : Hierarchy → Val F
  size h = int_val (pos (length h))
