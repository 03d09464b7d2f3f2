-- ===== src/Lib.antt =====
-- Verification of the Cerbos policy decision point, a Go program that answers whether a principal
-- may perform actions on a resource, by the policies it was given.
--
-- The parts and how they interact. Policies are read by a store, which keeps an index of the policy
-- files and of what each policy imports. The compiled policies become the rows of a rule table,
-- each under a name made of the policy's kind, name, version and scope. While rows are added, a
-- tracker sees to it that the policies of a scope agree on its scope permissions. A check looks for
-- the scopes that have policies, from the scope of the request up to the root, walks through the
-- kinds of policies, the roles and these scopes, and evaluates the conditions of the rules that it
-- finds there. Conditions may use functions on hierarchies, such as `a.b.c`.
--
-- Files, with what they model:
--   Prelude      shared names, strings as lists of bytes, maps as association lists (in which the
--                order of entries stands for the order of iteration of a Go map), maps of maps;
--   Namer        internal/namer/namer.go. Sanitize: `sanitize` and its two regular expressions;
--                Scopes: ScopeParents, withScope, buildFQNTree; Fqn: the names of policies, and
--                what is read back from them; Scopes/Parents and Fqn/Roundtrip are proofs;
--   Check        internal/ruletable/check.go, with parts of internal/ruletable/ruletable.go and
--                internal/evaluator. Types: the messages and rows; Condition: SatisfiesCondition and
--                the evaluation of expressions; Variables: evaluateVariables, evaluatePrograms,
--                evaluateOutput; State: the variables that the loops of RuleTable.check share, and
--                how a round of a loop ends (`Flow`: go on, `break scopesLoop`, `break
--                policiesLoop`, or fail); Rules: one rule binding; Walk: derived roles, one scope,
--                the loop over scopes; Roles: the loops over roles and kinds of policies; Scopes:
--                GetAllScopes; Actions: the loop over actions, setEffect, RuleTable.check. The other
--                files are proofs; Caches says what the caches of a check hold;
--   PolicyIndex  internal/storage/index/index.go. State: the maps of `index`, AddOrUpdate and
--                Delete; Dependents: GetDependents and addTransitiveDependents. The others are
--                proofs;
--   ScopePerms   internal/policy/scopeperms/scopeperms.go. Tracker: the whole of it; Tracking and
--                Agreement are proofs;
--   Hierarchy    internal/conditions/types/hierarchy.go. Values: the functions on hierarchies and
--                their dispatch; Prefixes and Relations are proofs;
--   Bitmap       internal/ruletable/index/bitmap.go. Words: bits of 64-bit words; Loops: the loop over
--                the bits of a word; Sets: the operations of Bitmap; Iterator; Binary:
--                MarshalBinary and UnmarshalBinary; Consistency: the invariant. The others are proofs;
--   RuleIndex    internal/ruletable/index, the index of the rule table's rows. SetOps: what it needs of
--                bitmaps, an interface that BitmapSets fills; Pool: bitmap_pool.go; Dimension and Rows:
--                bitmap_index.go; SortedIds and Lazy: lazy_dimension.go; Globs: glob_dimension.go and
--                internal/util/globs_common.go; Queries, Existence and Deletion: the regular bindings
--                of Query, ScopedResourceExists, ScopedPrincipalExists and DeletePolicy of index.go;
--                Indexes: the invariant; Matches: when a row matches a query. The others are proofs;
--   ParentRoles  the parent roles in internal/ruletable/index/index.go. Index: their compilation and
--                AddParentRoles. The others are proofs.
-- The modules named Examples hold small inputs, and the theorems applied to them.
--
-- Parameters. cel-go is the record CelEngine in Check (an expression with its activation gives a
-- value, an error or nothing usable) and CelTypes in Hierarchy (what its own values answer). The
-- schema validator is an argument of `check`. The rule table's index is the record RuleTable in
-- Check: Query, AddParentRoles, ScopedResourceExists and their like, as functions that the check
-- calls and does not change. The 64-bit hashes that identify modules are numbers, compared for
-- equality only. github.com/gobwas/glob is the record GlobLibrary of RuleIndex.
--
-- Fuel and bounds. The two searches that recurse, addTransitiveDependents and collectParentRoles,
-- run on fuel for the depth of their calls, and give `none` where it runs out. A call goes deeper
-- only from a module or role that was not visited and is a key of the map, so the number of keys and
-- one or two more is enough: their theorems say that they return. A loop over the bits of a word has
-- as much fuel as the word has bits, and each round clears one. A bitmap's iterator has fuel for the
-- words of meta, and the loop over its numbers for all bits; its theorem includes that this is
-- enough. All other loops run over lists. Numbers of type `int` are indices of lists in memory, and
-- do not overflow. The conversions to uint32, of a bitmap's members in Next and of the number of
-- slots in allocID, are modulo 2 ^ 32 (`uint32` in Prelude/Word): the theorems on them assume that
-- the members are below 2 ^ 32 and that a slot is left, and an index is well-formed only if it has at
-- most 2 ^ 32 slots. The words of a bitmap keep to 64 bits, which is part of its invariant.
--
-- Not modelled: tracing, logging and metrics; the locks of the index, whose operations are taken one
-- at a time; reading and parsing of files, the compiler, the making of the rule table's rows and the
-- sharing of their cores, the denies that Query adds for role policies, the capacity of slices, the
-- planner, the servers, audit logs and storage backends; texts of errors.
pub mod Prelude
pub mod Namer
pub mod Check
pub mod PolicyIndex
pub mod ScopePerms
pub mod Hierarchy
pub mod ParentRoles
pub mod Bitmap
pub mod RuleIndex
