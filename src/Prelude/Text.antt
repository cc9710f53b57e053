-- ===== src/Prelude/Text.antt =====
-- The text methods of the source over the native `String`: `trim`, `toLowerCase` (of ASCII letters;
-- other characters stay as they are), decimal numbers, `startsWith` and `endsWith`.
use Prim.Native.Nat.{ℕ, zero, suc, ◌+◌, ◌≤◌, ◌-◌, ◌/◌, ◌%◌}
use Prim.Native.Char.{Char, code, nul}
use Prim.Native.String.{String, [], ◌∷◌, ◌++◌}
use mathlib.Core.List.{List}
use mathlib.Core.Bool.{Bool, ◌&&◌, ◌||◌}
use mathlib.Core.Path.{◌≡◌, refl}
use text.Mathlib.Text.{◌==◌}
use text.Mathlib.TextLemmas.{nil-append, cons-append}
use text.Mathlib.TextEquality.{eq_iff}
use mathlib.Core.Path.{ap}
use mathlib.Core.Logic.{inl, inr}
use native.Mathlib.Omega.{arith}
use guardianbot.Prelude.Tests.{Bool-cases, ltb, leb, nat_beq, if◌then◌else◌}

-- White space of ECMAScript: the characters that `trim` removes.
unfoldable pub is_space : ℕ → Bool
is_space c =
    (leb 9 c && leb c 13)
    || nat_beq c 32
    || nat_beq c 160
    || nat_beq c 0x1680
    || (leb 0x2000 c && leb c 0x200a)
    || nat_beq c 0x2028
    || nat_beq c 0x2029
    || nat_beq c 0x202f
    || nat_beq c 0x205f
    || nat_beq c 0x3000
    || nat_beq c 0xfeff

trim_start : String → String
trim_start [] = []
trim_start (c ∷ s) = let rest = trim_start s in if is_space (code c) then rest else c ∷ s

trim_end : String → String
trim_end [] = []
trim_end (c ∷ s) =
    let rest = trim_end s in if is_space (code c) && (rest == "") then [] else c ∷ rest

unfoldable pub trim : String → String
unfolding is_space trim_start trim_end
trim s = trim_end (trim_start s)

-- The character at a position of a table.
char_at : String → ℕ → Char
char_at [] i = nul
char_at (c ∷ s) zero = c
char_at (c ∷ s) (suc i) = char_at s i

lower_char : Char → Char
lower_char c =
    let lower = char_at "abcdefghijklmnopqrstuvwxyz" (code c - 65) in
    if leb 65 (code c) && leb (code c) 90 then lower else c

unfoldable pub to_lower : String → String
unfolding lower_char char_at
to_lower [] = []
to_lower (c ∷ s) = lower_char c ∷ to_lower s

-- The decimal digits of a number, in front of `rest`; `fuel` bounds their number.
digits_from : ℕ → ℕ → String → String
digits_from zero n rest = rest
digits_from (suc fuel) n rest =
    let longer = digits_from fuel (n / 10) (char_at "0123456789" (n % 10) ∷ rest) in
    let last = char_at "0123456789" n ∷ rest in if ltb n 10 then last else longer

-- `${n}` of a number that is not negative
unfoldable pub decimal : ℕ → String
unfolding digits_from char_at
decimal n = digits_from (suc n) n ""

decimal_runs : decimal 90_210 ≡ "90210"
unfolding decimal
decimal_runs = refl

trim_lower_runs : to_lower (trim "  HiGH 9 ") ≡ "high 9"
unfolding trim to_lower
trim_lower_runs = refl

-- `s.endsWith(t)`
unfoldable pub ends_with : String → String → Bool
ends_with [] t = "" == t
ends_with (c ∷ s) t = (c ∷ s) == t || ends_with s t

unfoldable pub string_length : String → ℕ
string_length [] = 0
string_length (c ∷ s) = suc (string_length s)

string_length-append : (s t : String) → string_length (s ++ t) ≡ string_length s + string_length t
unfolding string_length
string_length-append [] t = rw (nil-append t) (omega arith)
string_length-append (c ∷ s) t = rw (cons-append c s t) (omega (arith, string_length-append s t))

-- The end of a text decides, where it is as long as what is asked for.
pub ends_with-append :
    (s t suffix : String)
    → string_length suffix ≤ string_length t
    → ends_with (s ++ t) suffix ≡ ends_with t suffix
unfolding ends_with string_length
ends_with-append [] t suffix h = rw (nil-append t)
ends_with-append (c ∷ s) t suffix h =
    rw (cons-append c s t) (elim (Bool-cases ((c ∷ (s ++ t)) == suffix)) [
      | inr differ ↦ rw differ (ends_with-append s t suffix h)
      | inl same ↦
          absurd
            (omega (arith, ap string_length ((eq_iff _ _).0 same), string_length-append s t, h))
    ])

-- The code units of an ASCII text.
abbrev pub code_units : String → List ℕ
code_units [] = List.[]
code_units (c ∷ s) = List.◌∷◌ (code c) (code_units s)
