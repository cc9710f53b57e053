-- ===== src/Ownership/Glob/Automaton.antt =====
-- `pathMatchesPattern`: a backtracking matcher, and lemmas on the marks of the automaton.
use guardianbot.Prelude.{
  refl, List, ℕ, Bool, ◌≡◌, ◌∷◌, [], ◌&&◌, true, arith, ◌||◌, false, ◌∙◌, Bool-cases, inr, inl,
}
use guardianbot.Ownership.Glob.{
  mark_first, Token, closure, step, last_mark, start_marks, Marks, is_loop, no_marks, passes, stays,
}

-- The backtracking matcher: a token that may match nothing is left, or reads a character and stays.
unfoldable pub matches : List Token → List ℕ → Bool
matches [] [] = true
matches [] (c ∷ s) = false
matches (t ∷ ts) [] = is_loop t && matches ts []
matches (t ∷ ts) (c ∷ s) =
    (is_loop t && matches ts (c ∷ s))
    || (stays t c && matches (t ∷ ts) s)
    || (passes t c && matches ts s)

-- Some marked place matches the rest of the path.
unfoldable pub reaches : (ts : List Token) → Marks ts → List ℕ → Bool
reaches [] m s = m && matches [] s
reaches (t ∷ ts) (m, ms) s = (m && matches (t ∷ ts) s) || reaches ts ms s

reaches-mark_first :
    (ts : List Token) (b : Bool) (ms : Marks ts) (s : List ℕ)
    → reaches ts (mark_first ts b ms) s ≡ reaches ts ms s || (b && matches ts s)
unfolding reaches mark_first
reaches-mark_first [] b m s = ground arith
reaches-mark_first (t ∷ ts) b (m, ms) s = ground arith

skip-matches :
    (t : Token) (ts : List Token) (s : List ℕ)
    → is_loop t ≡ true
    → matches ts s ≡ true
    → matches (t ∷ ts) s ≡ true
unfolding matches
skip-matches t ts [] loop h = rw (loop, h)
skip-matches t ts (c ∷ s) loop h = rw (loop, h)

pub reaches-closure :
    (ts : List Token) (ms : Marks ts) (s : List ℕ) → reaches ts (closure ts ms) s ≡ reaches ts ms s
unfolding reaches closure
reaches-closure [] m s = refl
reaches-closure (t ∷ ts) (m, ms) s = ground (
  arith,
  reaches-closure ts (mark_first ts (m && is_loop t) ms) s,
  reaches-mark_first ts (m && is_loop t) ms s,
  skip-matches t ts s,
)

-- Marks that the closure leaves as they are.
first_mark : (ts : List Token) → Marks ts → Bool
first_mark [] m = m
first_mark (t ∷ ts) (m, ms) = m

unfoldable pub IsClosed : (ts : List Token) → Marks ts → Type 0
unfolding first_mark
IsClosed [] m = Unit
IsClosed (t ∷ ts) (m, ms) = (m ≡ true → is_loop t ≡ true → first_mark ts ms ≡ true) × IsClosed ts ms

first_mark-closure :
    (ts : List Token) (b : Bool) (ms : Marks ts)
    → b ≡ true
    → first_mark ts (closure ts (mark_first ts b ms)) ≡ true
unfolding first_mark closure mark_first
first_mark-closure [] b m h = ground arith
first_mark-closure (t ∷ ts) b (m, ms) h = ground arith

pub closure-IsClosed : (ts : List Token) (ms : Marks ts) → IsClosed ts (closure ts ms)
unfolding IsClosed closure
closure-IsClosed [] m = tt
closure-IsClosed (t ∷ ts) (m, ms) =
    ((λ h k. first_mark-closure ts (m && is_loop t) ms (rw (h, k))), closure-IsClosed ts _)

first_mark-reaches :
    (ts : List Token) (ms : Marks ts) (s : List ℕ)
    → first_mark ts ms ≡ true
    → matches ts s ≡ true
    → reaches ts ms s ≡ true
unfolding first_mark reaches
first_mark-reaches [] m s h k = ground arith
first_mark-reaches (t ∷ ts) (m, ms) s h k = ground arith

-- Boolean algebra of one place: what it reaches is what the next places reach.
place_step :
    (carry m st loop ps here behind skipped reached next : Bool)
    → next ≡ reached || ((m && ps) && behind)
    → (m ≡ true → loop ≡ true → skipped ≡ true → reached ≡ true)
    → ((carry || (m && st)) && here) || next
      ≡ ((m && ((loop && skipped) || (st && here) || (ps && behind))) || reached) || (carry && here)
place_step carry m st loop ps here behind skipped reached next moved kept = elim (Bool-cases m) [
  | inr unmarked ↦ ground (arith, unmarked)
  | inl marked ↦ ground (arith, marked)
]

-- A character moves the marks as it moves the matcher.
pub reaches-step :
    (ts : List Token) (carry : Bool) (ms : Marks ts) (c : ℕ) (s : List ℕ)
    → IsClosed ts ms
    → reaches ts (step ts carry ms c) s ≡ reaches ts ms (c ∷ s) || (carry && matches ts s)
unfolding reaches step IsClosed matches
reaches-step [] carry m c s closed = ground arith
reaches-step (t ∷ ts) carry (m, ms) c s (loops, closed) =
    place_step carry m (stays t c) (is_loop t) (passes t c) (matches (t ∷ ts) s) (matches ts s)
      (matches ts (c ∷ s)) (reaches ts ms (c ∷ s)) _
      (reaches-step ts (m && passes t c) ms c s closed)
      (λ marked loop h. first_mark-reaches ts ms (c ∷ s) (loops marked loop) h)

place_end :
    (m loop skipped reached : Bool)
    → (m ≡ true → loop ≡ true → skipped ≡ true → reached ≡ true)
    → (m && (loop && skipped)) || reached ≡ reached
place_end m loop skipped reached kept = ground arith

pub reaches-end :
    (ts : List Token) (ms : Marks ts) → IsClosed ts ms → reaches ts ms [] ≡ last_mark ts ms
unfolding reaches last_mark IsClosed matches
reaches-end [] m closed = ground arith
reaches-end (t ∷ ts) (m, ms) (loops, closed) =
    place_end m (is_loop t) (matches ts []) (reaches ts ms [])
      (λ marked loop h. first_mark-reaches ts ms [] (loops marked loop) h)
    ∙ reaches-end ts ms closed

pub reaches-start : (ts : List Token) (s : List ℕ) → reaches ts (start_marks ts) s ≡ matches ts s
unfolding start_marks reaches no_marks
reaches-start ts s =
    reaches-closure ts (mark_first ts true (no_marks ts)) s
    ∙ reaches-mark_first ts true (no_marks ts) s
    ∙ ground (arith, nowhere ts s)
  where
    nowhere : (ts : List Token) (s : List ℕ) → reaches ts (no_marks ts) s ≡ false
    nowhere [] s = refl
    nowhere (t ∷ ts) s = nowhere ts s
