-- ===== src/RuleIndex/Globs.antt =====
-- internal/util/globs_common.go and internal/ruletable/index/glob_dimension.go: rows filed under
-- literal values and under glob patterns.
use access_management.Prelude.{
  ℕ, Bool, false, Option, none, some, List, [], ◌∷◌, ◌==◌, any, is_some, if◌then◌else◌, Str, codes,
  lookup, insert, delete, is_empty, str_comparable, str_eq,
}
use access_management.RuleIndex.SetOps.{SetOps}
use access_management.RuleIndex.Pool.{union_of}
use access_management.RuleIndex.Dimension.{set_or_new, append_found}
use access_management.RuleIndex.Lazy.{LazyDimension, lazy_add, lazy_remove, lazy_bitmap, lazy_has}

-- github.com/gobwas/glob: compiling a pattern with the separator ':' (`none` is an error), and matching.
pub record GlobLibrary : Type 1 where
  pub Pattern : Type 0
  pub compile : Str → Option Pattern
  pub matches : Pattern → Str → Bool

-- IsGlob
unfoldable pub is_glob : Str → Bool
is_glob s = any (λ c. c == b'*') s

-- fixGlob
unfoldable pub fix_glob : Str → Str
fix_glob g = if str_eq g (codes "*") then codes "**" else g

module _ (L : GlobLibrary) where
  abbrev matches_compiled : Option L.Pattern → Str → Bool
  matches_compiled none v = false
  matches_compiled (some g) v = L.matches g v

  -- GetOrCompileGlob; its cache holds what compile answers.
  unfoldable pub get_or_compile_glob : Str → Option L.Pattern
  unfolding fix_glob
  get_or_compile_glob g = L.compile (fix_glob g)

  -- MatchesGlob
  unfoldable pub matches_glob : Str → Str → Bool
  matches_glob g v = matches_compiled (get_or_compile_glob g) v

module _ (B : SetOps) (L : GlobLibrary) where
  -- globDimension
  pub record GlobDimension : Type 0 where
    pub literals : LazyDimension B
    pub globs : LazyDimension B
    pub compiled : List (Str × L.Pattern)

  abbrev pub new_glob_dimension : GlobDimension
  new_glob_dimension = record { literals = []; globs = []; compiled = [] }

  unfoldable pub set_compiled : Str → ℕ → GlobDimension → Option L.Pattern → GlobDimension
  set_compiled key id gd none = gd
  set_compiled key id gd (some g) = record gd {
    globs = lazy_add B key id gd.globs;
    compiled = insert key g gd.compiled;
  }

  -- Set; a pattern that does not compile is left out.
  unfoldable pub glob_set : Str → ℕ → GlobDimension → GlobDimension
  unfolding set_compiled
  glob_set key id gd =
      if is_glob key
      then if is_some (lookup key gd.compiled)
        then record gd { globs = lazy_add B key id gd.globs }
        else set_compiled key id gd (get_or_compile_glob L key)
      else record gd { literals = lazy_add B key id gd.literals }

  -- Remove
  unfoldable pub glob_remove : Str → ℕ → GlobDimension → GlobDimension
  glob_remove key id gd =
      let globs = lazy_remove B key id gd.globs in
      if is_glob key
      then record gd {
        globs = globs;
        compiled = if lazy_has B key globs then gd.compiled else delete key gd.compiled;
      }
      else record gd { literals = lazy_remove B key id gd.literals }

  -- The sets of the patterns that match a value, before other parts.
  unfoldable pub matching_globs :
      (L.Pattern → Bool) → List (Str × L.Pattern) → LazyDimension B → List B.Set → List B.Set
  matching_globs test [] globs parts = parts
  matching_globs test ((p, g) ∷ compiled) globs parts =
      let rest = matching_globs test compiled globs parts in
      if test g then append_found B (lazy_bitmap B p globs) rest else rest

  -- Query
  unfoldable pub glob_query : Str → GlobDimension → B.Set
  glob_query value gd =
      let literal = lazy_bitmap B value gd.literals in
      if is_empty gd.compiled
      then set_or_new B literal
      else union_of B
          (append_found B literal (matching_globs (λ g. L.matches g value) gd.compiled gd.globs []))

  unfoldable pub query_parts : List Str → GlobDimension → List B.Set
  query_parts [] gd = []
  query_parts (v ∷ values) gd =
      append_found B (lazy_bitmap B v gd.literals)
        (matching_globs (λ g. L.matches g v) gd.compiled gd.globs (query_parts values gd))

  -- QueryMultiple
  unfoldable pub glob_query_multiple : List Str → GlobDimension → B.Set
  unfolding query_parts
  glob_query_multiple values gd = union_of B (query_parts values gd)
