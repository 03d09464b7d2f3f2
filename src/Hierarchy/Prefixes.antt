-- ===== src/Hierarchy/Prefixes.antt =====
-- The comparison loops as prefix tests, and the text of a hierarchy.
use access_management.Prelude.{
  ℕ, zero, suc, ◌≤◌, ◌≡◌, refl, sym, ap, ◌∙◌, Bool, true, false, ◌&&◌, [], ◌∷◌, ◌++◌, Str, ◌==◌,
  leb, length, take, any, All, is_empty, str_eq_iff, str_eq_refl, arith,
}
use access_management.Hierarchy.Values.{Hierarchy, matches, common, split_from, split, join}

pub matches-append : (h r : Hierarchy) → matches h (h ++ r) ≡ true
unfolding matches
matches-append [] r = refl
matches-append (s ∷ h) r = ground (arith, matches-append h r, str_eq_refl s)

pub prefix_of_matches : (h c : Hierarchy) → matches h c ≡ true → (r : Hierarchy) × (c ≡ h ++ r)
unfolding matches
prefix_of_matches [] c m = (c, refl)
prefix_of_matches (s ∷ h) [] m = absurd (ground arith)
prefix_of_matches (s ∷ h) (t ∷ c) m =
    let rest = prefix_of_matches h c (ground arith) in
    (rest.0, ground (arith, rest.1, str_eq_iff t s))

pub length-matches : (h c : Hierarchy) → matches h c ≡ true → length h ≤ length c
unfolding matches
length-matches [] c m = omega arith
length-matches (s ∷ h) [] m = absurd (ground arith)
length-matches (s ∷ h) (t ∷ c) m = ground (arith, length-matches h c)

pub matches_swap : (h c : Hierarchy) → length h ≡ length c → matches h c ≡ matches c h
unfolding matches
matches_swap [] [] e = refl
matches_swap [] (t ∷ c) e = absurd (omega arith)
matches_swap (s ∷ h) [] e = absurd (omega arith)
matches_swap (s ∷ h) (t ∷ c) e = ground (arith, matches_swap h c, str_eq_iff s t, str_eq_iff t s)

pub matches-common : (p a b : Hierarchy) → matches p (common a b) ≡ (matches p a && matches p b)
unfolding matches common
matches-common [] a b = refl
matches-common (x ∷ p) [] b = refl
matches-common (x ∷ p) (s ∷ a) [] = ground arith
matches-common (x ∷ p) (s ∷ a) (t ∷ b) =
    ground (arith, matches-common p a b, str_eq_iff s x, str_eq_iff t x, str_eq_iff t s)

pub matches-take :
    (n : ℕ) (p h : Hierarchy) → matches p (take n h) ≡ (matches p h && leb (length p) n)
unfolding matches
matches-take n [] h = ground arith
matches-take zero (x ∷ p) h = ground arith
matches-take (suc n) (x ∷ p) [] = refl
matches-take (suc n) (x ∷ p) (s ∷ h) = ground (arith, matches-take n p h)

split_from-full : (part s : Str) → is_empty (split_from part s) ≡ false
unfolding split_from
split_from-full part [] = refl
split_from-full part (c ∷ s) = ground (arith, split_from-full (part ++ c ∷ []) s)

join-cons : (x : Str) (h : Hierarchy) → is_empty h ≡ false → join (x ∷ h) ≡ x ++ b'.' ∷ join h
unfolding join
join-cons x [] n = absurd (ground arith)
join-cons x (y ∷ h) n = refl

append_assoc : (a b c : Str) → (a ++ b) ++ c ≡ a ++ (b ++ c)
append_assoc [] b c = refl
append_assoc (x ∷ a) b c = ap (λ t. x ∷ t) (append_assoc a b c)

append_nil : (a : Str) → a ++ [] ≡ a
append_nil [] = refl
append_nil (x ∷ a) = ap (λ t. x ∷ t) (append_nil a)

join-split_from : (part s : Str) → join (split_from part s) ≡ part ++ s
unfolding split_from join
join-split_from part [] = sym (append_nil part)
join-split_from part (c ∷ s) = ground (
  arith,
  join-cons part (split_from [] s) (split_from-full [] s),
  join-split_from [] s,
  join-split_from (part ++ c ∷ []) s,
  append_assoc part (c ∷ []) s,
)

-- The text of the hierarchy that is split from a text is that text.
pub join-split : (s : Str) → join (split s) ≡ s
unfolding split
join-split s = join-split_from [] s

abbrev pub has_dot : Str → Bool
has_dot s = any (λ c. c == b'.') s

split_from-last : (part x : Str) → has_dot x ≡ false → split_from part x ≡ (part ++ x) ∷ []
unfolding split_from
split_from-last part [] h = ground (arith, append_nil part)
split_from-last part (c ∷ x) h =
    ground (arith, split_from-last (part ++ c ∷ []) x, append_assoc part (c ∷ []) x)

split_from-append :
    (part x s : Str)
    → has_dot x ≡ false
    → split_from part (x ++ b'.' ∷ s) ≡ (part ++ x) ∷ split_from [] s
unfolding split_from
split_from-append part [] s h = ground (arith, append_nil part)
split_from-append part (c ∷ x) s h =
    ground (arith, split_from-append (part ++ c ∷ []) x s, append_assoc part (c ∷ []) x)

-- A hierarchy that is not empty and has no dots in its parts is read back from its text.
pub split-join :
    (x : Str) (h : Hierarchy) → All (λ s. has_dot s ≡ false) (x ∷ h) → split (join (x ∷ h)) ≡ x ∷ h
unfolding split join
split-join x [] (n, t) = split_from-last [] x n
split-join x (y ∷ h) (n, ns) =
    split_from-append [] x (join (y ∷ h)) n ∙ ap (λ t. x ∷ t) (split-join y h ns)
