-- ===== src/Ownership/Glob/Equivalence.antt =====
-- `pathMatchesPattern`: the run of the automaton over a path.
use guardianbot.Prelude.{
  refl, List, ℕ, Bool, ◌≡◌, false, ◌∷◌, not, includes, ◌&&◌, nat_beq, ◌||◌, ◌∙◌, arith, nat_eq,
}
use guardianbot.Ownership.Glob.{
  run, matches_normalized, path_matches_pattern, Token, start_marks, Marks, strip_slashes,
  pattern_tokens, last_mark, slash, step, closure,
}
use guardianbot.Ownership.Glob.Automaton.{
  IsClosed, reaches, matches, closure-IsClosed, reaches-end, reaches-start, reaches-closure,
  reaches-step,
}
use mathlib.Core.List.{[]}

-- The matcher from a place behind a separator, where the pattern may start there.
unfoldable pub matches_below : List Token → Bool → List ℕ → Bool
matches_below ts anchored [] = false
matches_below ts anchored (c ∷ path) =
    (not anchored && nat_beq c slash && matches ts path) || matches_below ts anchored path

run-matches :
    (ts : List Token) (anchored : Bool) (ms : Marks ts) (path : List ℕ)
    → IsClosed ts ms
    → last_mark ts (run ts anchored ms path) ≡ reaches ts ms path || matches_below ts anchored path
unfolding run matches_below
run-matches ts anchored ms [] closed = rw (reaches-end ts ms closed) (ground arith)
run-matches ts anchored ms (c ∷ path) closed =
    let carry = not anchored && nat_beq c slash in
    let next = step ts carry ms c in
    run-matches ts anchored (closure ts next) path (closure-IsClosed ts next)
    ∙ ground (arith, reaches-closure ts next path, reaches-step ts carry ms c path closed)

unfoldable pub matches_somewhere : List ℕ → List ℕ → Bool
matches_somewhere [] path = false
matches_somewhere (c ∷ normalized) path =
    let ts = pattern_tokens (c ∷ normalized) in
    let anchored = includes (c ∷ normalized) slash in
    matches ts path || matches_below ts anchored path

normalized-matches :
    (normalized path : List ℕ)
    → matches_normalized normalized path ≡ matches_somewhere normalized path
unfolding matches_normalized matches_somewhere start_marks
normalized-matches [] path = refl
normalized-matches (c ∷ normalized) path =
    let ts = pattern_tokens (c ∷ normalized) in
    run-matches ts (includes (c ∷ normalized) slash) (start_marks ts) path (closure-IsClosed ts _)
    ∙ rw (reaches-start ts path)

-- For every pattern and path, the automaton, which reads the path once, answers as the backtracking
-- matcher of the pattern's tokens does: an empty pattern matches nothing, a pattern with a separator
-- is matched from the start of the path, any other from the start or behind a separator.
pub path_matches_pattern-matches :
    (pattern path : List ℕ)
    → path_matches_pattern pattern path ≡ matches_somewhere (strip_slashes pattern) path
unfolding path_matches_pattern
path_matches_pattern-matches pattern path = normalized-matches (strip_slashes pattern) path
