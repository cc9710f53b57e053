-- ===== src/Ownership/Glob.antt =====
-- apps/control-plane/src/findings-lifecycle.ts, `pathMatchesPattern`: glob patterns, matched by an
-- automaton whose states are the places between the tokens. A set of states is its marks: the first
-- for the place in front of the first token, the last for the end.
pub mod Automaton
pub mod Equivalence
use guardianbot.Prelude.{
  ℕ, List, Bool, ◌∷◌, if◌then◌else◌, false, ◌++◌, true, nat_beq, not, ◌||◌, ◌&&◌, [], includes,
  nat_eq,
}
use mathlib.Core.List.{[]}

-- A token; a character is its code unit.
pub data Token : Type 0 where
  literal : ℕ → Token
  segment : Token
  any_text : Token
  single : Token

abbrev pub slash : ℕ
slash = 47

abbrev pub star : ℕ
star = 42

abbrev pub question : ℕ
question = 63

-- `pattern.replace(/^\/+/, "")`
unfoldable pub strip_slashes : List ℕ → List ℕ
strip_slashes [] = []
strip_slashes (c ∷ s) = let rest = strip_slashes s in if nat_beq c slash then rest else c ∷ s

unfoldable pub one_token : ℕ → Token
one_token c = if nat_beq c star then segment else if nat_beq c question then single else literal c

-- The loop over the pattern: `**` is one token.
unfoldable pub tokens_of : List ℕ → List Token
unfolding one_token
tokens_of [] = []
tokens_of (c ∷ []) = one_token c ∷ []
tokens_of (c ∷ d ∷ s) = elim (nat_beq c star && nat_beq d star) [
  | true ↦ any_text ∷ tokens_of s
  | false ↦ one_token c ∷ tokens_of (d ∷ s)
]

-- `normalized.endsWith("/")`
unfoldable pub ends_in_slash : List ℕ → Bool
ends_in_slash [] = false
ends_in_slash (c ∷ []) = nat_beq c slash
ends_in_slash (c ∷ d ∷ s) = ends_in_slash (d ∷ s)

unfoldable pub pattern_tokens : List ℕ → List Token
unfolding ends_in_slash
pattern_tokens normalized =
    tokens_of normalized ++ (if ends_in_slash normalized then any_text ∷ [] else [])

-- A token that may match nothing.
unfoldable pub is_loop : Token → Bool
is_loop segment = true
is_loop any_text = true
is_loop _ = false

is_line_end : ℕ → Bool
is_line_end c = nat_beq c 10 || nat_beq c 13 || nat_beq c 0x2028 || nat_beq c 0x2029

-- The automaton stays in front of the token, or passes it, as it reads a character.
unfoldable pub stays : Token → ℕ → Bool
unfolding is_line_end
stays segment c = not (nat_beq c slash)
stays any_text c = not (is_line_end c)
stays _ c = false

unfoldable pub passes : Token → ℕ → Bool
passes (literal value) c = nat_beq value c
passes single c = not (nat_beq c slash)
passes _ c = false

-- `Uint8Array(end + 1)`: a mark for each place.
abbrev pub Marks : List Token → Type 0
Marks [] = Bool
Marks (t ∷ ts) = Bool × Marks ts

unfoldable pub mark_first : (ts : List Token) → Bool → Marks ts → Marks ts
mark_first [] b m = m || b
mark_first (t ∷ ts) b (m, ms) = (m || b, ms)

unfoldable pub closure : (ts : List Token) → Marks ts → Marks ts
closure [] m = m
closure (t ∷ ts) (m, ms) = (m, closure ts (mark_first ts (m && is_loop t) ms))

-- The marks after one character; `carry` marks the place in front of the first token.
unfoldable pub step : (ts : List Token) → Bool → Marks ts → ℕ → Marks ts
step [] carry m c = carry
step (t ∷ ts) carry (m, ms) c = (carry || (m && stays t c), step ts (m && passes t c) ms c)

unfoldable pub no_marks : (ts : List Token) → Marks ts
no_marks [] = false
no_marks (t ∷ ts) = (false, no_marks ts)

-- `current[end] === 1`
unfoldable pub last_mark : (ts : List Token) → Marks ts → Bool
last_mark [] m = m
last_mark (t ∷ ts) (m, ms) = last_mark ts ms

unfoldable pub run : (ts : List Token) → Bool → Marks ts → List ℕ → Marks ts
run ts anchored current [] = current
run ts anchored current (c ∷ path) =
    run ts anchored (closure ts (step ts (not anchored && nat_beq c slash) current c)) path

unfoldable pub start_marks : (ts : List Token) → Marks ts
start_marks ts = closure ts (mark_first ts true (no_marks ts))

unfoldable pub matches_normalized : List ℕ → List ℕ → Bool
matches_normalized [] path = false
matches_normalized (c ∷ normalized) path =
    let ts = pattern_tokens (c ∷ normalized) in
    last_mark ts (run ts (includes (c ∷ normalized) slash) (start_marks ts) path)

unfoldable pub path_matches_pattern : List ℕ → List ℕ → Bool
path_matches_pattern pattern path = matches_normalized (strip_slashes pattern) path

-- Opens the whole matcher: for tests.
unfoldable pub matching_open : Unit {0}
unfolding strip_slashes one_token tokens_of ends_in_slash pattern_tokens is_loop stays passes
    mark_first closure step no_marks last_mark run start_marks matches_normalized
    path_matches_pattern
matching_open = tt
