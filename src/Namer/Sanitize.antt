-- ===== src/Namer/Sanitize.antt =====
-- `sanitize` of internal/namer/namer.go, with its two regular expressions as functions on bytes.
-- Bytes of a multi-byte rune are 128 or more, so the tests on runes are tests on bytes.
use access_management.Prelude.{
  ℕ, ◌≡◌, refl, Bool, true, false, not, ◌&&◌, ◌||◌, ◌⊎◌, inl, inr, [], ◌∷◌, arith, Str, leb, ◌==◌,
  any, all, if◌then◌else◌, ◌++◌, Bool-cases, ap, sym,
}
use mathlib.Core.Path.{subst}

-- [[:alpha:]]
is_alpha : ℕ → Bool
is_alpha r = leb b'a' r && leb r b'z' || leb b'A' r && leb r b'Z'

-- [[:word:]]
is_word : ℕ → Bool
unfolding is_alpha
is_word r = is_alpha r || leb b'0' r && leb r b'9' || r == b'_'

unfoldable pub is_invalid_identifier_char : ℕ → Bool
unfolding is_word
is_invalid_identifier_char r = not (r == b'.' || is_word r)

-- [[:word:]\@\.\-/]
is_old_name_char : ℕ → Bool
unfolding is_word
is_old_name_char r = is_word r || r == b'@' || r == b'.' || r == b'-' || r == b'/'

-- oldNamePattern: segments that begin with a letter, parted by colons.
mutual
  unfolding is_alpha is_old_name_char

  segment_start : Str → Bool
  segment_start [] = false
  segment_start (r ∷ s) = is_alpha r && segment_rest s

  segment_rest : Str → Bool
  segment_rest [] = true
  segment_rest (r ∷ s) =
      let next = segment_start s in
      let same = segment_rest s in if r == b':' then next else is_old_name_char r && same

unfoldable pub matches_old_name_pattern : Str → Bool
unfolding segment_start
matches_old_name_pattern v = segment_start v

-- invalidIdentifierChars.ReplaceAllLiteralString(v, "_"): one underscore for each run. The flag
-- says that the byte before was invalid.
unfoldable pub replace_runs : Bool → Str → Str
replace_runs inside [] = []
replace_runs inside (r ∷ s) =
    let bad = is_invalid_identifier_char r in
    let rest = replace_runs bad s in
    if bad then (if inside then rest else b'_' ∷ rest) else r ∷ rest

unfoldable pub sanitize : Str → Str
sanitize v =
    if any is_invalid_identifier_char v
    then (if matches_old_name_pattern v then replace_runs false v else v)
    else v

-- The string begins with an invalid byte.
abbrev pub starts_invalid : Str → Bool
starts_invalid [] = false
starts_invalid (r ∷ s) = is_invalid_identifier_char r

underscore_valid : is_invalid_identifier_char b'_' ≡ false
unfolding is_invalid_identifier_char
underscore_valid = refl

replace_runs_valid :
    (inside : Bool) (s : Str) → any is_invalid_identifier_char (replace_runs inside s) ≡ false
unfolding replace_runs
replace_runs_valid inside [] = refl
replace_runs_valid inside (r ∷ s) =
    ground (arith, underscore_valid, replace_runs_valid true s, replace_runs_valid false s)

-- What follows the old pattern is left with valid bytes only.
pub sanitize_valid :
    (v : Str)
    → (v ≡ []) ⊎ (matches_old_name_pattern v ≡ true)
    → any is_invalid_identifier_char (sanitize v) ≡ false
unfolding sanitize
sanitize_valid [] h = refl
sanitize_valid (r ∷ s) (inl e) = cc
sanitize_valid (r ∷ s) (inr h) = ground (arith, replace_runs_valid false (r ∷ s))

-- `t` is `s` with one underscore for each maximal run of invalid bytes.
pub data Replaced : Str → Str → Type 0 where
  nothing : Replaced [] []
  kept :
      {r : ℕ} {s t : Str}
      → is_invalid_identifier_char r ≡ false
      → Replaced s t
      → Replaced (r ∷ s) (r ∷ t)
  run :
      (r : ℕ) (bad : Str) {rest t : Str}
      → all is_invalid_identifier_char (r ∷ bad) ≡ true
      → starts_invalid rest ≡ false
      → Replaced rest t
      → Replaced (r ∷ bad ++ rest) (b'_' ∷ t)

-- What a name becomes: the old pattern decides whether runs are replaced.
pub data Sanitized : Str → Str → Type 0 where
  old_name : {v t : Str} → matches_old_name_pattern v ≡ true → Replaced v t → Sanitized v t
  unchanged : {v : Str} → matches_old_name_pattern v ≡ false → Sanitized v v

-- A run of invalid bytes, what follows it, and what that becomes.
record Run (s t : Str) : Type 0 where
  run : Str
  rest : Str
  parted : s ≡ run ++ rest
  invalid : all is_invalid_identifier_char run ≡ true
  ended : starts_invalid rest ≡ false
  replaced : Replaced rest t

Replaced-valid : (s : Str) → any is_invalid_identifier_char s ≡ false → Replaced s s
Replaced-valid [] h = Replaced.nothing
Replaced-valid (r ∷ s) h = Replaced.kept (ground (arith, h)) (Replaced-valid s (ground (arith, h)))

run-Replaced :
    (r : ℕ) (s t : Str)
    → is_invalid_identifier_char r ≡ true
    → Run s t
    → Replaced (r ∷ s) (b'_' ∷ t)
run-Replaced r s t b u =
    subst (λ x. Replaced (r ∷ x) (b'_' ∷ t)) (sym u.parted)
      (Replaced.run r u.run (ground (arith, b, u.invalid)) u.ended u.replaced)

mutual
  unfolding replace_runs

  replace_runs-Replaced : (s : Str) → Replaced s (replace_runs false s)
  replace_runs-Replaced [] = Replaced.nothing
  replace_runs-Replaced (r ∷ s) = elim (Bool-cases (is_invalid_identifier_char r)) [
    | inl b ↦ simp b (run-Replaced r s (replace_runs true s) b (replace_runs-Run s))
    | inr v ↦ simp v (Replaced.kept v (replace_runs-Replaced s))
  ]

  replace_runs-Run : (s : Str) → Run s (replace_runs true s)
  replace_runs-Run [] = record {
    run = [];
    rest = [];
    parted = refl;
    invalid = refl;
    ended = refl;
    replaced = Replaced.nothing;
  }
  replace_runs-Run (r ∷ s) = elim (Bool-cases (is_invalid_identifier_char r)) [
    | inl b ↦ simp b (
        let u = replace_runs-Run s in
        record {
          run = r ∷ u.run;
          rest = u.rest;
          parted = ap (λ x. r ∷ x) u.parted;
          invalid = ground (arith, b, u.invalid);
          ended = u.ended;
          replaced = u.replaced;
        })
    | inr v ↦ simp v (record {
      run = [];
      rest = r ∷ s;
      parted = refl;
      invalid = refl;
      ended = v;
      replaced = Replaced.kept v (replace_runs-Replaced s);
    })
  ]

-- sanitize gives a name that matches the old pattern one underscore for each maximal run of invalid
-- bytes and keeps its other bytes in order, and leaves a name that does not match as it is.
pub sanitize-Sanitized : (v : Str) → Sanitized v (sanitize v)
unfolding sanitize
sanitize-Sanitized v = elim (Bool-cases (matches_old_name_pattern v)) [
  | inl m ↦ elim (Bool-cases (any is_invalid_identifier_char v)) [
    | inl b ↦ simp (m, b) (Sanitized.old_name m (replace_runs-Replaced v))
    | inr n ↦ simp (m, n) (Sanitized.old_name m (Replaced-valid v n))
  ]
  | inr m ↦ elim (Bool-cases (any is_invalid_identifier_char v)) [
    | inl b ↦ simp (m, b) (Sanitized.unchanged m)
    | inr n ↦ simp (m, n) (Sanitized.unchanged m)
  ]
]
