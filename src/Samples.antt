-- ===== src/Samples.antt =====
-- Dates for tests: a time is printed as "T", a cross for each ten seconds, and a stroke for each
-- millisecond that is left.
use mathlib.Core.Option
use Prim.Native.String.{[], ◌∷◌}
use Prim.Native.Char.{code, char}
use guardianbot.Prelude.{
  refl, ℕ, String, Option, ◌≡◌, ◌<◌, suc, some, none, if◌then◌else◌, ◌==◌, nat_eq, Bool, false,
  true, leb, arith, ◌+◌, ◌/◌, ◌*◌, ap, ◌%◌, ◌∙◌,
}
use guardianbot.Prelude.Js.{Dates, Collation}
use Prim.Native.Nat.{zero}
use guardianbot.Prelude.Text.{string_length}

strokes : ℕ → String
strokes zero = []
strokes (suc t) = char b'I' tt ∷ strokes t

crosses : ℕ → String → String
crosses zero s = s
crosses (suc t) s = char b'X' tt ∷ crosses t s

count_strokes : String → Option ℕ
count_strokes [] = some 0
count_strokes (c ∷ s) =
    let rest = count_strokes s in
    if code c == b'I'
    then Option.map suc rest
    else if code c == b'X'
    then Option.map (λ n. n + 10_000) rest
    else none

sample_parse : String → Option ℕ
unfolding count_strokes
sample_parse [] = none
sample_parse (c ∷ s) = let time = count_strokes s in if code c == b'T' then time else none

sample_to_iso : ℕ → String
unfolding strokes crosses
sample_to_iso t = char b'T' tt ∷ crosses (t / 10_000) (strokes (t % 10_000))

count_strokes-strokes : (t : ℕ) → count_strokes (strokes t) ≡ some t
unfolding count_strokes strokes
count_strokes-strokes zero = refl
count_strokes-strokes (suc t) = rw (count_strokes-strokes t)

count_strokes-crosses : (a b : ℕ) → count_strokes (crosses a (strokes b)) ≡ some (a * 10_000 + b)
unfolding count_strokes crosses
count_strokes-crosses zero b = count_strokes-strokes b ∙ ap some (omega arith)
count_strokes-crosses (suc a) b = rw (count_strokes-crosses a b) (ap some (omega arith))

divided : (t : ℕ) → t / 10_000 * 10_000 + t % 10_000 ≡ t
divided t = omega arith

sample_parse-to_iso : (t : ℕ) → t < 8_640_000_000_000_000 → sample_parse (sample_to_iso t) ≡ some t
unfolding sample_parse sample_to_iso
sample_parse-to_iso t h = count_strokes-crosses (t / 10_000) (t % 10_000) ∙ ap some (divided t)

unfoldable pub sample_dates : Dates
unfolding sample_parse sample_to_iso sample_parse-to_iso count_strokes-strokes count_strokes-crosses
    divided strokes crosses
sample_dates = record {
  parse = sample_parse;
  to_iso = sample_to_iso;
  parse_empty = refl;
  parse-to_iso = sample_parse-to_iso;
}

-- A collation for tests: by length.
sample_collate : String → String → Bool
sample_collate a b = leb (string_length a) (string_length b)

sample_collate_total : (a b : String) → sample_collate a b ≡ false → sample_collate b a ≡ true
unfolding sample_collate
sample_collate_total a b h = ground (arith, h)

sample_collate_trans :
    (a b c : String)
    → sample_collate a b ≡ true
    → sample_collate b c ≡ true
    → sample_collate a c ≡ true
unfolding sample_collate
sample_collate_trans a b c h k = ground (arith, h, k)

unfoldable pub sample_collation : Collation
unfolding sample_collate string_length sample_collate_total sample_collate_trans
sample_collation = record {
  collate = sample_collate;
  collate_total = sample_collate_total;
  collate_trans = sample_collate_trans;
}
