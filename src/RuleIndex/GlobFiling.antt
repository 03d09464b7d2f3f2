-- ===== src/RuleIndex/GlobFiling.antt =====
-- Which rows a glob dimension files under which keys, and which of them a query finds.
use access_management.Prelude.{
  ℕ, Option, none, some, ◌≡◌, Bool, true, false, ◌&&◌, ◌||◌, not, ◌==◌, is_some, All, if◌then◌else◌,
  arith, Str, lookup, insert, delete, insert-All, delete-All, lookup-All, lookup-insert,
  lookup-delete, str_comparable, str_eq, str_eq_iff, Option-cases, inl, inr, Bool-cases, if_either,
}
use access_management.RuleIndex.SetOps.{SetOps}
use access_management.RuleIndex.Lazy.{
  lazy_add, lazy_remove, lazy_has, lazy_filed, IsLazy, lazy_add-IsLazy, lazy_remove-IsLazy,
  filed-lazy_add, filed-lazy_remove, lazy_has-filed,
}
use access_management.RuleIndex.Globs.{
  GlobLibrary, GlobDimension, is_glob, get_or_compile_glob, matches_glob, glob_set, glob_remove,
  set_compiled,
}

-- Whether a key can be filed: a literal, or a pattern that compiles.
unfoldable pub fileable : (L : GlobLibrary) → Str → Bool
fileable L key = if is_glob key then is_some (get_or_compile_glob L key) else true

-- Whether a field of a row matches a value that is asked for.
unfoldable pub field_matches : (L : GlobLibrary) → Str → Str → Bool
field_matches L key v = if is_glob key then matches_glob L key v else str_eq key v

-- The key that a row is filed under: the field of the row, if there is one and it can be filed.
abbrev pub key_is : (L : GlobLibrary) → Option Str → Str → Bool
key_is L none k = false
key_is L (some f) k = str_eq f k && fileable L f

abbrev pub key_matches : (L : GlobLibrary) → Option Str → Str → Bool
key_matches L none v = false
key_matches L (some f) v = field_matches L f v

module _ (B : SetOps) (L : GlobLibrary) where
  -- Whether a row is filed under a key.
  unfoldable pub glob_filed : Str → ℕ → GlobDimension B L → Bool
  glob_filed key id gd =
      if is_glob key then lazy_filed B key id gd.globs else lazy_filed B key id gd.literals

  -- The compiled patterns are those of globs, and every key that files a row has one; the other
  -- dimension files no glob.
  unfoldable pub Compiled : Str × L.Pattern → Type 0
  Compiled (p, g) = (is_glob p ≡ true) × (get_or_compile_glob L p ≡ some g)

  pub record IsGlobDimension (gd : GlobDimension B L) : Type 0 where
    pub literals_lazy : IsLazy B gd.literals
    pub globs_lazy : IsLazy B gd.globs
    pub no_glob :
        (key : Str) (id : ℕ) → is_glob key ≡ true → lazy_filed B key id gd.literals ≡ false
    pub compiled_of : All Compiled gd.compiled
    pub all_compiled :
        (key : Str) (id : ℕ)
        → lazy_filed B key id gd.globs ≡ true
        → is_some (lookup key gd.compiled) ≡ true

  module _ (key : Str) (id : ℕ) (gd : GlobDimension B L) (v : IsGlobDimension gd) where
    -- Set files a row under a key that can be filed, and nothing else changes.
    pub filed-glob_set :
        (k : Str) (x : ℕ)
        → glob_filed k x (glob_set B L key id gd)
          ≡ ((str_eq key k && (id == x) && fileable L key) || glob_filed k x gd)
    unfolding glob_filed glob_set fileable set_compiled Compiled
    filed-glob_set k x =
        let filed = filed-lazy_add B key id gd.globs k x in
        elim (Option-cases (lookup key gd.compiled)) [
          | inl absent ↦ elim (Option-cases (get_or_compile_glob L key)) [
            | inl fails ↦
                rw (absent, fails)
                  (ground (
                    arith,
                    absent,
                    fails,
                    str_eq_iff key k,
                    filed-lazy_add B key id gd.literals k x,
                  ))
            | inr found ↦
                rw (absent, found.1)
                  (ground (arith, filed, str_eq_iff key k, filed-lazy_add B key id gd.literals k x))
          ]
          | inr has ↦
              let made : get_or_compile_glob L key ≡ some has.0 =
                (rw has.1 at (lookup-All Compiled key gd.compiled v.compiled_of)).1 in
              rw has.1 (
                ground (
                  arith,
                  has.1,
                  made,
                  filed,
                  str_eq_iff key k,
                  filed-lazy_add B key id gd.literals k x,
                ))
        ]

    -- Remove takes a row from under a key, and nothing else changes.
    pub filed-glob_remove :
        (k : Str) (x : ℕ)
        → glob_filed k x (glob_remove B L key id gd)
          ≡ (not (str_eq key k && (id == x)) && glob_filed k x gd)
    unfolding glob_filed glob_remove
    filed-glob_remove k x = ground (
      arith,
      filed-lazy_remove B key id gd.globs k x v.globs_lazy,
      filed-lazy_remove B key id gd.literals k x v.literals_lazy,
      str_eq_iff key k,
    )

    -- Set and Remove keep the invariant.
    literal-IsGlobDimension :
        is_glob key ≡ false
        → IsGlobDimension (record gd { literals = lazy_add B key id gd.literals })
    literal-IsGlobDimension g = record {
      literals_lazy = lazy_add-IsLazy B key id gd.literals v.literals_lazy;
      globs_lazy = v.globs_lazy;
      no_glob = λ k x h.
          ground
            (arith, filed-lazy_add B key id gd.literals k x, v.no_glob k x h, str_eq_iff key k);
      compiled_of = v.compiled_of;
      all_compiled = v.all_compiled;
    }

    pattern-IsGlobDimension :
        is_some (lookup key gd.compiled) ≡ true
        → IsGlobDimension (record gd { globs = lazy_add B key id gd.globs })
    pattern-IsGlobDimension has = record {
      literals_lazy = v.literals_lazy;
      globs_lazy = lazy_add-IsLazy B key id gd.globs v.globs_lazy;
      no_glob = v.no_glob;
      compiled_of = v.compiled_of;
      all_compiled = λ k x h.
          ground
            (arith, filed-lazy_add B key id gd.globs k x, v.all_compiled k x, str_eq_iff key k);
    }

    new_pattern-IsGlobDimension :
        (g : L.Pattern)
        → Compiled (key, g)
        → IsGlobDimension
            (record gd { globs = lazy_add B key id gd.globs; compiled = insert key g gd.compiled })
    new_pattern-IsGlobDimension g c = record {
      literals_lazy = v.literals_lazy;
      globs_lazy = lazy_add-IsLazy B key id gd.globs v.globs_lazy;
      no_glob = v.no_glob;
      compiled_of = insert-All Compiled key g gd.compiled c v.compiled_of;
      all_compiled = λ k x h. ground (
        arith,
        filed-lazy_add B key id gd.globs k x,
        v.all_compiled k x,
        lookup-insert key k g gd.compiled,
        str_eq_iff key k,
      );
    }

    pub glob_set-IsGlobDimension : IsGlobDimension (glob_set B L key id gd)
    unfolding glob_set set_compiled Compiled
    glob_set-IsGlobDimension = elim (Bool-cases (is_glob key)) [
      | inr literal ↦ rw literal (literal-IsGlobDimension literal)
      | inl glob ↦ elim (Bool-cases (is_some (lookup key gd.compiled))) [
        | inl has ↦ rw (glob, has) (pattern-IsGlobDimension has)
        | inr absent ↦ elim (Option-cases (get_or_compile_glob L key)) [
          | inl fails ↦ rw (glob, absent, fails) v
          | inr found ↦
              rw (glob, absent, found.1) (new_pattern-IsGlobDimension found.0 (glob, found.1))
        ]
      ]
    ]

    pub glob_remove-IsGlobDimension : IsGlobDimension (glob_remove B L key id gd)
    unfolding glob_remove
    glob_remove-IsGlobDimension = elim (Bool-cases (is_glob key)) [
      | inl glob ↦
          let globs = lazy_remove B key id gd.globs in
          rw glob (record {
            literals_lazy = v.literals_lazy;
            globs_lazy = lazy_remove-IsLazy B key id gd.globs v.globs_lazy;
            no_glob = v.no_glob;
            compiled_of =
                if_either (All Compiled) (lazy_has B key globs) gd.compiled (delete key gd.compiled)
                  v.compiled_of (delete-All Compiled key gd.compiled v.compiled_of);
            all_compiled = λ k x h. ground (
              arith,
              filed-lazy_remove B key id gd.globs k x v.globs_lazy,
              v.all_compiled k x,
              lazy_has-filed B key globs x,
              h,
              lookup-delete key k gd.compiled,
              str_eq_iff key k,
            );
          })
      | inr literal ↦ rw literal (record {
        literals_lazy = lazy_remove-IsLazy B key id gd.literals v.literals_lazy;
        globs_lazy = v.globs_lazy;
        no_glob = λ k x h.
            ground
              (arith, filed-lazy_remove B key id gd.literals k x v.literals_lazy, v.no_glob k x h);
        compiled_of = v.compiled_of;
        all_compiled = v.all_compiled;
      })
    ]
