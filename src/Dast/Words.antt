-- ===== src/Dast/Words.antt =====
-- apps/control-plane/src/dast-session.ts: the texts and classes of characters that its patterns are made of.
use Prim.Native.String.{[], ◌∷◌}
use Prim.Native.Char.{Char, code}
use guardianbot.Prelude.{
  Option, some, none, nat_beq, ltb, leb, ◌||◌, ◌&&◌, string_eq, ◌==◌, not, is_some, if◌then◌else◌,
  String, ℕ, Bool, ◌+◌, true, false,
}

unfoldable pub strip_prefix : String → String → Option String
strip_prefix [] text = some text
strip_prefix (c ∷ p) [] = none
strip_prefix (c ∷ p) (d ∷ text) =
    let rest = strip_prefix p text in if nat_beq (code c) (code d) then rest else none

unfoldable pub starts_with : String → String → Bool
unfolding strip_prefix
starts_with text start = is_some (strip_prefix start text)

-- `text.includes(part)`
unfoldable pub contains : String → String → Bool
unfolding starts_with
contains [] part = starts_with "" part
contains (c ∷ s) part = let rest = contains s part in starts_with (c ∷ s) part || rest

unfoldable pub all_chars : (ℕ → Bool) → String → Bool
all_chars test [] = true
all_chars test (c ∷ s) = let rest = all_chars test s in test (code c) && rest

-- `text.length`, in code units of UTF-16
unfoldable pub utf16_length : String → ℕ
utf16_length [] = 0
utf16_length (c ∷ s) =
    let rest = utf16_length s in if ltb (code c) 0x10000 then rest + 1 else rest + 2

abbrev pub is_digit : ℕ → Bool
is_digit c = leb 48 c && leb c 57

abbrev pub is_lower : ℕ → Bool
is_lower c = leb 97 c && leb c 122

abbrev pub is_upper : ℕ → Bool
is_upper c = leb 65 c && leb c 90

-- The characters behind the first one, where the first one passes.
unfoldable pub behind_first : (ℕ → Bool) → String → Option String
behind_first test [] = none
behind_first test (c ∷ s) = if test (code c) then some s else none

-- `/^F R{0,n}$/` for classes F and R of characters
unfoldable pub is_word : (ℕ → Bool) → (ℕ → Bool) → ℕ → String → Bool
unfolding behind_first all_chars utf16_length
is_word first rest n text = elim (behind_first first text) [
  | some s ↦ all_chars rest s && leb (utf16_length s) n
  | none ↦ false
]

-- The text up to the first `/`, and the text behind it.
unfoldable pub split_slash : String → Option (String × String)
split_slash [] = none
split_slash (c ∷ s) =
    let rest = split_slash s in if nat_beq (code c) 47 then some ("", s) else in_front c rest
  where
    in_front : Char → Option (String × String) → Option (String × String)
    in_front d none = none
    in_front d (some (before, after)) = some (d ∷ before, after)

unfoldable pub is_nonempty_of : (ℕ → Bool) → String → Bool
unfolding all_chars
is_nonempty_of test text = not (text == "") && all_chars test text
