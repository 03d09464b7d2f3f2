-- ===== src/RuleIndex/Deletion.antt =====
-- internal/ruletable/index/index.go, DeletePolicy: the rows of a policy leave the index. The shared
-- cores and parameters, which count their users, are left out.
use access_management.Prelude.{
  ℕ, ◌<◌, length, word32, ◌≡◌, ◌∙◌, refl, Bool, true, false, not, ◌&&◌, ◌||◌, Option, none, some,
  List, [], ◌∷◌, ◌++◌, ◌==◌, ==_iff, any, arith, if◌then◌else◌, Str, str_eq, str_eq_iff, is_empty,
  lookup, delete, lookup-insert, lookup-delete, inl, inr, Bool-cases, str_comparable, ap,
}
use access_management.Check.Types.{EvaluationKeyTuple}
use access_management.RuleIndex.SetOps.{SetOps}
use access_management.RuleIndex.Globs.{GlobLibrary}
use access_management.RuleIndex.Rows.{
  Handle, BitmapIndex, get_binding, add_binding, remove_binding, free_id, alloc_id, ids_or_new,
}
use access_management.RuleIndex.Indexes.{IsIndex}
use access_management.RuleIndex.Additions.{get_binding-add_binding, new_id_lem}
use access_management.RuleIndex.Removals.{remove_binding-IsIndex, get_binding-remove_binding}

abbrev pub origin_is : Option Handle → Str → Bool
origin_is none f = false
origin_is (some b) f = str_eq b.origin_fqn f

-- The row that a number has once a policy is gone.
abbrev pub without : Str → Option Handle → Option Handle
without fqn o = if not (is_empty fqn) && origin_is o fqn then none else o

module _ (B : SetOps) (L : GlobLibrary) where
  abbrev remove_row : Option Handle → BitmapIndex B L → BitmapIndex B L
  remove_row none idx = idx
  remove_row (some b) idx = remove_binding B L b idx

  -- The loop of DeletePolicy over the numbers of the policy's rows.
  unfoldable pub delete_rows : List ℕ → BitmapIndex B L → BitmapIndex B L
  delete_rows [] idx = idx
  delete_rows (id ∷ ids) idx = delete_rows ids (remove_row (get_binding B L id idx) idx)

  abbrev pub forget_policy : Str → BitmapIndex B L → BitmapIndex B L
  forget_policy fqn idx = record idx { fqn_bindings = delete fqn idx.fqn_bindings }

  abbrev delete_rows_of : Str → Option (List ℕ) → BitmapIndex B L → BitmapIndex B L
  delete_rows_of fqn none idx = idx
  delete_rows_of fqn (some ids) idx = forget_policy fqn (delete_rows ids idx)

  -- DeletePolicy
  unfoldable pub delete_policy : Str → BitmapIndex B L → BitmapIndex B L
  delete_policy fqn idx =
      if is_empty fqn then idx else delete_rows_of fqn (lookup fqn idx.fqn_bindings) idx

  -- The numbers kept for a policy are those of its rows.
  unfoldable pub TracksOrigins : BitmapIndex B L → Type 0
  TracksOrigins idx =
      (f : Str) (x : ℕ)
      → any (λ y. x == y) (ids_or_new (lookup f idx.fqn_bindings))
        ≡ origin_is (get_binding B L x idx) f

  any-append :
      (x : ℕ) (ids : List ℕ) (id : ℕ)
      → any (λ y. x == y) (ids ++ (id ∷ [])) ≡ ((x == id) || any (λ y. x == y) ids)
  any-append x [] id = ground arith
  any-append x (y ∷ ids) id = ground (arith, any-append x ids id)

  -- addBinding keeps the numbers kept for each policy in step with the rows, where the index has
  -- fewer than 2 ^ 32 slots.
  pub add_binding-TracksOrigins :
      (b : Handle) (key : EvaluationKeyTuple) (idx : BitmapIndex B L)
      → IsIndex B L idx
      → length idx.bindings < word32
      → TracksOrigins idx
      → TracksOrigins (add_binding B L b key idx)
  unfolding TracksOrigins add_binding
  add_binding-TracksOrigins b key idx v room t f x =
      let id = (alloc_id B L idx).0 in
      ground (
        arith,
        get_binding-add_binding B L b key idx v room x,
        (new_id_lem B L b key idx v room).0,
        t f x,
        any-append x (ids_or_new (lookup b.origin_fqn idx.fqn_bindings)) id,
        lookup-insert b.origin_fqn f
            (ids_or_new (lookup b.origin_fqn idx.fqn_bindings) ++ (id ∷ [])) idx.fqn_bindings,
        str_eq_iff b.origin_fqn f,
        ==_iff id x,
        ==_iff x id,
      )

  remove_row-lem :
      (id : ℕ) (o : Option Handle) (idx : BitmapIndex B L)
      → IsIndex B L idx
      → get_binding B L id idx ≡ o
      → IsIndex B L (remove_row o idx)
        × ((x : ℕ)
            → get_binding B L x (remove_row o idx)
              ≡ (if id == x then none else get_binding B L x idx))
        × ((remove_row o idx).fqn_bindings ≡ idx.fqn_bindings)
  unfolding remove_binding free_id
  remove_row-lem id none idx v e = (
    v,
    (λ x. elim (Bool-cases (id == x)) [
      | inl s ↦ let q = (==_iff id x).0 s in rw (s, ← q) e
      | inr s ↦ rw s refl
    ]),
    refl,
  )
  remove_row-lem id (some b) idx v e =
      let n : b.id ≡ id = v.numbered id b e in
      let live : get_binding B L b.id idx ≡ some b = ap (λ (i : ℕ). get_binding B L i idx) n ∙ e in
      (
        remove_binding-IsIndex B L b idx v live,
        (λ x. ground (arith, get_binding-remove_binding B L b idx v live x, n)),
        refl,
      )

  delete_rows-lem :
      (ids : List ℕ) (idx : BitmapIndex B L)
      → IsIndex B L idx
      → IsIndex B L (delete_rows ids idx)
        × ((x : ℕ)
            → get_binding B L x (delete_rows ids idx)
              ≡ (if any (λ y. x == y) ids then none else get_binding B L x idx))
        × ((delete_rows ids idx).fqn_bindings ≡ idx.fqn_bindings)
  unfolding delete_rows
  delete_rows-lem [] idx v = (v, (λ x. refl), refl)
  delete_rows-lem (id ∷ ids) idx v =
      let one = remove_row-lem id (get_binding B L id idx) idx v refl in
      let rest = delete_rows-lem ids (remove_row (get_binding B L id idx) idx) one.0 in
      (rest.0, (λ x. ground (arith, rest.1 x, one.1 x, ==_iff id x, ==_iff x id)), rest.2 ∙ one.2)

  forget_policy-IsIndex :
      (fqn : Str) (idx : BitmapIndex B L) → IsIndex B L idx → IsIndex B L (forget_policy fqn idx)
  unfolding get_binding
  forget_policy-IsIndex fqn idx v = record {
    numbered = v.numbered;
    free_slots = v.free_slots;
    free_distinct = v.free_distinct;
    few = v.few;
    all_keys = v.all_keys;
    universe = v.universe;
    allow_sets = v.allow_sets;
    scopes = v.scopes;
    versions = v.versions;
    kinds = v.kinds;
    principals_lazy = v.principals_lazy;
    principals = v.principals;
    roles_glob = v.roles_glob;
    roles = v.roles;
    resources_glob = v.resources_glob;
    resources = v.resources;
    actions_glob = v.actions_glob;
    actions = v.actions;
  }

  one_origin :
      (o : Option Handle) (f g : Str)
      → origin_is o f ≡ true
      → origin_is o g ≡ true
      → str_eq f g ≡ true
  one_origin none f g h k = absurd (ground (arith, h))
  one_origin (some b) f g h k =
      ground (arith, h, k, str_eq_iff b.origin_fqn f, str_eq_iff b.origin_fqn g, str_eq_iff f g)

  delete_policy-nothing :
      (fqn : Str) (idx : BitmapIndex B L) → is_empty fqn ≡ true → delete_policy fqn idx ≡ idx
  unfolding delete_policy
  delete_policy-nothing fqn idx h = rw h refl

  delete_policy-found :
      (fqn : Str) (idx : BitmapIndex B L)
      → is_empty fqn ≡ false
      → delete_policy fqn idx ≡ delete_rows_of fqn (lookup fqn idx.fqn_bindings) idx
  unfolding delete_policy
  delete_policy-found fqn idx h = rw h refl

  without-nothing : (fqn : Str) (o : Option Handle) → is_empty fqn ≡ true → o ≡ without fqn o
  without-nothing fqn o h = rw h refl

  delete_rows_of-lem :
      (fqn : Str) (o : Option (List ℕ)) (idx : BitmapIndex B L)
      → is_empty fqn ≡ false
      → IsIndex B L idx
      → TracksOrigins idx
      → lookup fqn idx.fqn_bindings ≡ o
      → IsIndex B L (delete_rows_of fqn o idx)
        × ((x : ℕ)
            → get_binding B L x (delete_rows_of fqn o idx) ≡ without fqn (get_binding B L x idx))
        × TracksOrigins (delete_rows_of fqn o idx)
  unfolding TracksOrigins get_binding
  delete_rows_of-lem fqn none idx h v t e = (v, (λ x. ground (arith, h, t fqn x, e)), t)
  delete_rows_of-lem fqn (some ids) idx h v t e =
      let rows = delete_rows-lem ids idx v in
      (
        forget_policy-IsIndex fqn (delete_rows ids idx) rows.0,
        (λ x. ground (arith, rows.1 x, t fqn x, e, h)),
        (λ f x. ground (
          arith,
          rows.1 x,
          t fqn x,
          t f x,
          e,
          lookup-delete fqn f idx.fqn_bindings,
          rows.2,
          ap (λ (m : List (Str × List ℕ)). lookup f (delete fqn m)) rows.2,
          str_eq_iff fqn f,
          one_origin (get_binding B L x idx) fqn f,
        )),
      )

  module _ (fqn : Str) (idx : BitmapIndex B L) (v : IsIndex B L idx) (t : TracksOrigins idx) where
    delete_policy_all :
        IsIndex B L (delete_policy fqn idx)
        × ((x : ℕ)
            → get_binding B L x (delete_policy fqn idx) ≡ without fqn (get_binding B L x idx))
        × TracksOrigins (delete_policy fqn idx)
    delete_policy_all = elim (Bool-cases (is_empty fqn)) [
      | inl h ↦
          rw (delete_policy-nothing fqn idx h)
            (v, (λ x. without-nothing fqn (get_binding B L x idx) h), t)
      | inr h ↦
          rw (delete_policy-found fqn idx h)
            (delete_rows_of-lem fqn (lookup fqn idx.fqn_bindings) idx h v t refl)
    ]

    -- In a well-formed index, DeletePolicy takes out exactly the rows that came from the policy, and none
    -- for the empty name.
    pub get_binding-delete_policy :
        (x : ℕ) → get_binding B L x (delete_policy fqn idx) ≡ without fqn (get_binding B L x idx)
    get_binding-delete_policy = delete_policy_all.1

    -- DeletePolicy keeps the invariant of the index, and the numbers of each policy in step with the rows.
    pub delete_policy-IsIndex :
        IsIndex B L (delete_policy fqn idx) × TracksOrigins (delete_policy fqn idx)
    delete_policy-IsIndex = (delete_policy_all.0, delete_policy_all.2)
