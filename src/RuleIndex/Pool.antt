-- ===== src/RuleIndex/Pool.antt =====
-- internal/ruletable/index/bitmap_pool.go: unions and intersections of several sets, into a set
-- that the pool has cleared. The operands are taken in the order that saves work.
use access_management.Prelude.{
  ℕ, zero, suc, ◌+◌, ◌<◌, ◌≡◌, refl, Bool, true, false, ◌&&◌, ◌||◌, not, List, [], ◌∷◌, ◌==◌, ltb,
  leb, any, all, if◌then◌else◌, arith,
}
use access_management.RuleIndex.SetOps.{SetOps}

module _ (B : SetOps) where
  -- The loops over `parts[1:]` that look for the first operand with the most words, the fewest words:
  -- the index i of the part looked at, the best index and its number of words.
  unfoldable pub max_index_from : List B.Set → ℕ → ℕ → ℕ → ℕ
  max_index_from [] i best most = best
  max_index_from (s ∷ parts) i best most =
      if ltb most (B.words_len s)
      then max_index_from parts (suc i) i (B.words_len s)
      else max_index_from parts (suc i) best most

  unfoldable pub min_index_from : List B.Set → ℕ → ℕ → ℕ → ℕ
  min_index_from [] i best least = best
  min_index_from (s ∷ parts) i best least =
      if ltb (B.words_len s) least
      then min_index_from parts (suc i) i (B.words_len s)
      else min_index_from parts (suc i) best least

  -- parts[i] of a slice that starts with s
  unfoldable pub part : B.Set → List B.Set → ℕ → B.Set
  part s parts zero = s
  part s [] (suc i) = s
  part s (t ∷ parts) (suc i) = part t parts i

  -- `for i, p := range parts { if i != skip { bm.Or(p) } }`, and the loop with And
  unfoldable pub or_others : List B.Set → ℕ → ℕ → B.Set → B.Set
  or_others [] i skip bm = bm
  or_others (p ∷ parts) i skip bm =
      or_others parts (suc i) skip (if i == skip then bm else B.or bm p)

  unfoldable pub and_others : List B.Set → ℕ → ℕ → B.Set → B.Set
  and_others [] i skip bm = bm
  and_others (p ∷ parts) i skip bm =
      and_others parts (suc i) skip (if i == skip then bm else B.and bm p)

  -- orInto
  unfoldable pub or_into : B.Set → List B.Set → B.Set
  or_into s parts =
      let i = max_index_from parts 1 0 (B.words_len s) in
      or_others (s ∷ parts) 0 i (B.or B.empty (part s parts i))

  -- and2
  unfoldable pub and2 : B.Set → B.Set → B.Set
  and2 x y =
      if leb (B.words_len x) (B.words_len y)
      then B.and (B.or B.empty x) y
      else B.and (B.or B.empty y) x

  -- andInto
  unfoldable pub and_into : B.Set → List B.Set → B.Set
  and_into s parts =
      let i = min_index_from parts 1 0 (B.words_len s) in
      and_others (s ∷ parts) 0 i (B.or B.empty (part s parts i))

  -- `switch len(parts)`: nothing, the one part, or their union.
  unfoldable pub union_of : List B.Set → B.Set
  union_of [] = B.empty
  union_of (s ∷ []) = s
  union_of (s ∷ t ∷ parts) = or_into s (t ∷ parts)

  pub contains-and2 :
      (x y : B.Set) (id : ℕ) → B.contains id (and2 x y) ≡ (B.contains id x && B.contains id y)
  unfolding and2
  contains-and2 x y id = ground (
    arith,
    B.contains-and (B.or B.empty x) y id,
    B.contains-and (B.or B.empty y) x id,
    B.contains-or B.empty x id,
    B.contains-or B.empty y id,
    B.contains-empty id,
  )

  module _ (id : ℕ) where
    abbrev holds : B.Set → Bool
    holds s = B.contains id s

    -- Some operand other than the one left out has the member; every such operand has it.
    any_other : List B.Set → ℕ → ℕ → Bool
    any_other [] i skip = false
    any_other (p ∷ parts) i skip =
        (not (i == skip) && B.contains id p) || any_other parts (suc i) skip

    every_other : List B.Set → ℕ → ℕ → Bool
    every_other [] i skip = true
    every_other (p ∷ parts) i skip =
        ((i == skip) || B.contains id p) && every_other parts (suc i) skip

    contains-or_others :
        (parts : List B.Set) (i skip : ℕ) (bm : B.Set)
        → B.contains id (or_others parts i skip bm) ≡ (B.contains id bm || any_other parts i skip)
    unfolding or_others any_other
    contains-or_others [] i skip bm = ground arith
    contains-or_others (p ∷ parts) i skip bm = ground (
      arith,
      contains-or_others parts (suc i) skip (if i == skip then bm else B.or bm p),
      B.contains-or bm p id,
    )

    contains-and_others :
        (parts : List B.Set) (i skip : ℕ) (bm : B.Set)
        → B.contains id (and_others parts i skip bm)
          ≡ (B.contains id bm && every_other parts i skip)
    unfolding and_others every_other
    contains-and_others [] i skip bm = ground arith
    contains-and_others (p ∷ parts) i skip bm = ground (
      arith,
      contains-and_others parts (suc i) skip (if i == skip then bm else B.and bm p),
      B.contains-and bm p id,
    )

    any_other-past :
        (parts : List B.Set) (i skip : ℕ) → skip < i → any_other parts i skip ≡ any holds parts
    unfolding any_other
    any_other-past [] i skip h = refl
    any_other-past (p ∷ parts) i skip h =
        ground (arith, any_other-past parts (suc i) skip (omega arith))

    every_other-past :
        (parts : List B.Set) (i skip : ℕ) → skip < i → every_other parts i skip ≡ all holds parts
    unfolding every_other
    every_other-past [] i skip h = refl
    every_other-past (p ∷ parts) i skip h =
        ground (arith, every_other-past parts (suc i) skip (omega arith))

    -- The operand left out and the others are all operands.
    any_other-rest :
        (s : B.Set) (parts : List B.Set) (i k : ℕ)
        → (B.contains id (part s parts k) || any_other (s ∷ parts) i (i + k))
          ≡ any holds (s ∷ parts)
    unfolding any_other part
    any_other-rest s [] i zero = ground arith
    any_other-rest s [] i (suc k) = ground arith
    any_other-rest s (t ∷ parts) i zero =
        ground (arith, any_other-past (t ∷ parts) (suc i) (i + 0) (omega arith))
    any_other-rest s (t ∷ parts) i (suc k) =
        let e : i + suc k ≡ suc i + k = omega arith in
        ground (arith, e, any_other-rest t parts (suc i) k)

    every_other-rest :
        (s : B.Set) (parts : List B.Set) (i k : ℕ)
        → (B.contains id (part s parts k) && every_other (s ∷ parts) i (i + k))
          ≡ all holds (s ∷ parts)
    unfolding every_other part
    every_other-rest s [] i zero = ground arith
    every_other-rest s [] i (suc k) = ground arith
    every_other-rest s (t ∷ parts) i zero =
        ground (arith, every_other-past (t ∷ parts) (suc i) (i + 0) (omega arith))
    every_other-rest s (t ∷ parts) i (suc k) =
        let e : i + suc k ≡ suc i + k = omega arith in
        ground (arith, e, every_other-rest t parts (suc i) k)

    -- The members of orInto's result are those of some part.
    pub contains-or_into :
        (s : B.Set) (parts : List B.Set)
        → B.contains id (or_into s parts) ≡ any (λ p. B.contains id p) (s ∷ parts)
    unfolding or_into
    contains-or_into s parts =
        let i = max_index_from parts 1 0 (B.words_len s) in
        ground (
          arith,
          contains-or_others (s ∷ parts) 0 i (B.or B.empty (part s parts i)),
          B.contains-or B.empty (part s parts i) id,
          B.contains-empty id,
          any_other-rest s parts 0 i,
        )

    -- The members of andInto's result are those of every part.
    pub contains-and_into :
        (s : B.Set) (parts : List B.Set)
        → B.contains id (and_into s parts) ≡ all (λ p. B.contains id p) (s ∷ parts)
    unfolding and_into
    contains-and_into s parts =
        let i = min_index_from parts 1 0 (B.words_len s) in
        ground (
          arith,
          contains-and_others (s ∷ parts) 0 i (B.or B.empty (part s parts i)),
          B.contains-or B.empty (part s parts i) id,
          B.contains-empty id,
          every_other-rest s parts 0 i,
        )

    pub contains-union_of :
        (parts : List B.Set) → B.contains id (union_of parts) ≡ any (λ p. B.contains id p) parts
    unfolding union_of
    contains-union_of [] = B.contains-empty id
    contains-union_of (s ∷ []) = ground arith
    contains-union_of (s ∷ t ∷ parts) = contains-or_into s (t ∷ parts)
