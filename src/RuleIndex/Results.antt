-- ===== src/RuleIndex/Results.antt =====
-- The rows that Query returns, in their order.
use access_management.Prelude.{
  ℕ, ◌<◌, word32, leb, length, get_elem?-beyond, Bool-cases, ◌≡◌, refl, Bool, true, Option, none,
  some, List, [], ◌∷◌, any, All, is_some, arith, Str, ◌==◌, Option-cases, inl, inr, ap, ◌∙◌,
}
use access_management.Bitmap.Batch.{Ascending}
use access_management.Check.Types.{Kind}
use access_management.RuleIndex.SetOps.{SetOps}
use access_management.RuleIndex.Globs.{GlobLibrary}
use access_management.RuleIndex.Rows.{Handle, BitmapIndex, get_binding}
use access_management.RuleIndex.Indexes.{IsIndex}
use access_management.RuleIndex.Queries.{ResourceKind, query_rows, query_regular, rows_of}
use access_management.RuleIndex.Matches.{row_matches, asked}
use access_management.RuleIndex.Selection.{contains-query_rows}

-- The numbers of the rows.
abbrev pub numbers : List Handle → List ℕ
numbers [] = []
numbers (b ∷ rows) = b.id ∷ numbers rows

asked-is_some : (p : Handle → Bool) (o : Option Handle) → asked p o ≡ true → is_some o ≡ true
asked-is_some p none h = h
asked-is_some p (some b) h = refl

-- A row of the index, at its number.
abbrev pub Live : (B : SetOps) (L : GlobLibrary) → BitmapIndex B L → Handle → Type 0
Live B L idx b = get_binding B L b.id idx ≡ some b

module _ (B : SetOps) (L : GlobLibrary) (idx : BitmapIndex B L) (v : IsIndex B L idx) where
  rows_of-lem :
      (ids : List ℕ)
      → ((x : ℕ) → any (λ y. x == y) ids ≡ true → is_some (get_binding B L x idx) ≡ true)
      → (numbers (rows_of B L ids idx) ≡ ids) × All (Live B L idx) (rows_of B L ids idx)
  unfolding rows_of
  rows_of-lem [] h = (refl, tt)
  rows_of-lem (id ∷ ids) h =
      let rest = rows_of-lem ids (λ x e. h x (ground (arith, e))) in
      elim (Option-cases (get_binding B L id idx)) [
        | inl absent ↦ absurd (ground (arith, absent, h id (ground arith)))
        | inr found ↦
            let n = v.numbered id found.0 found.1 in
            rw found.1 (
              ground (arith, rest.0, n),
              (ap (λ (i : ℕ). get_binding B L i idx) n ∙ found.1, rest.1),
            )
      ]

  row_small : (x : ℕ) → is_some (get_binding B L x idx) ≡ true → x < word32
  unfolding get_binding
  row_small x h = elim (Bool-cases (leb (length idx.bindings) x)) [
    | inl out ↦ absurd (ground (arith, h, out, get_elem?-beyond idx.bindings x))
    | inr in_range ↦ ground (arith, in_range, v.few)
  ]

  -- In an index that satisfies the invariant, the regular bindings that Query returns are rows of the
  -- index, each at its own number, in strictly ascending order of the numbers, which are exactly
  -- those of the rows that match what is asked for.
  pub query_regular_lem :
      (version : Str) (kind : ResourceKind) (scope action : Str) (roles : List Str) (k : Kind)
      (principal_id : Str)
      → All (Live B L idx) (query_regular B L version kind scope action roles k principal_id idx)
        × Ascending (numbers (query_regular B L version kind scope action roles k principal_id idx))
        × ((x : ℕ)
            → any
                (λ y. x == y)
                (numbers (query_regular B L version kind scope action roles k principal_id idx))
              ≡ asked
                  (row_matches L version kind scope action roles k principal_id)
                  (get_binding B L x idx))
  unfolding query_regular
  query_regular_lem version kind scope action roles k principal_id =
      let rows = query_rows B L version kind scope action roles k principal_id idx in
      let selects =
        λ (x : ℕ). contains-query_rows B x L idx v version kind scope action roles k principal_id in
      let small : (x : ℕ) → B.contains x rows ≡ true → x < word32 = λ x e. row_small x (
        asked-is_some (row_matches L version kind scope action roles k principal_id)
          (get_binding B L x idx) (ground (arith, e, selects x))) in
      let found = rows_of-lem (B.ids rows) (λ x e.
        asked-is_some (row_matches L version kind scope action roles k principal_id)
          (get_binding B L x idx) (ground (arith, e, B.any-ids rows small x, selects x))) in
      (
        found.1,
        rw found.0 (B.ids-Ascending rows small),
        λ x. rw found.0 (B.any-ids rows small x ∙ selects x),
      )
