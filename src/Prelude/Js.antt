-- ===== src/Prelude/Js.antt =====
-- JavaScript values as far as the code looks at them: numbers, JSON documents, and dates.
use Prim.Native.Nat.{ℕ, ◌-◌, ◌^◌, ◌<◌}
use Prim.Native.String.{String}
use mathlib.Core.Path.{◌≡◌}
use mathlib.Core.Logic.{◌↔◌}
use mathlib.Core.Bool.{Bool, true, false}
use mathlib.Core.Option.{Option, none, some}
use native.Mathlib.Omega.{arith}
use guardianbot.Prelude.Tests.{ltb, leb, nat_beq}
use guardianbot.Prelude.Equality.{Eq}

abbrev pub max_safe_integer : ℕ
max_safe_integer = 2 ^ 53 - 1

-- A number, or what stands in its place: an integer that is not negative, the integer -(n + 1), or
-- anything else (a fraction, NaN, an infinity, a value that is no number).
pub data Number : Type 0 where
  nat : ℕ → Number
  neg : ℕ → Number
  other : Number

pub nat_injective : (n m : ℕ) → nat n ≡ nat m → n ≡ m
nat_injective n m e = cc

-- `Number.isSafeInteger`
unfoldable pub is_safe_integer : Number → Bool
is_safe_integer (nat n) = leb n max_safe_integer
is_safe_integer (neg n) = ltb n max_safe_integer
is_safe_integer other = false

abbrev pub number_beq : Number → Number → Bool
number_beq (nat m) (nat n) = nat_beq m n
number_beq (neg m) (neg n) = nat_beq m n
number_beq other other = true
number_beq _ _ = false

pub number_beq_iff : (a b : Number) → (number_beq a b ≡ true) ↔ (a ≡ b)
number_beq_iff a b = ground arith

instance abbrev pub number_eq : Eq Number
number_eq = record { beq = number_beq; beq_iff = number_beq_iff }

-- `left <= right` of two integers
unfoldable pub number_leb : Number → Number → Bool
number_leb (nat m) (nat n) = leb m n
number_leb (neg m) (neg n) = leb n m
number_leb (neg m) (nat n) = true
number_leb _ _ = false

-- A JSON document.
mutual
  pub data Json : Type 0 where
    null : Json
    bool : Bool → Json
    num : Number → Json
    str : String → Json
    arr : Items → Json
    obj : Fields → Json

  pub data Items : Type 0 where
    nil : Items
    cons : Json → Items → Items

  pub data Fields : Type 0 where
    end : Fields
    field : String → Json → Fields → Fields

-- The engine's reading and printing of dates: `Date.parse(text)` in milliseconds since 1970 (`none`
-- for NaN, which the empty text gives) and `new Date(time).toISOString()`. A printed date reads back.
pub record Dates : Type 0 where
  pub parse : String → Option ℕ
  pub to_iso : ℕ → String
  pub parse_empty : parse "" ≡ none
  pub parse-to_iso : (t : ℕ) → t < 8_640_000_000_000_000 → parse (to_iso t) ≡ some t

-- `left.localeCompare(right) <= 0`, in the engine's collation: a total preorder.
pub record Collation : Type 0 where
  pub collate : String → String → Bool
  pub collate_total : (a b : String) → collate a b ≡ false → collate b a ≡ true
  pub collate_trans :
      (a b c : String) → collate a b ≡ true → collate b c ≡ true → collate a c ≡ true

-- `Date.parse(text) <= now` and `Date.parse(text) < now`, both false of a text that is no date.
unfoldable pub time_at_most : Option ℕ → ℕ → Bool
time_at_most none now = false
time_at_most (some t) now = leb t now

unfoldable pub time_below : Option ℕ → ℕ → Bool
time_below none now = false
time_below (some t) now = ltb t now
