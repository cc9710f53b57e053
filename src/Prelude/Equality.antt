-- ===== src/Prelude/Equality.antt =====
-- Equality tests by instances: `a === b` on numbers, texts and enumerations.
use Prim.Native.Nat.{ℕ}
use Prim.Native.String.{String}
use mathlib.Core.Path.{◌≡◌, sym, refl, subst}
use guardianbot.Prelude.Lists.{filter}
use mathlib.Core.Logic.{◌↔◌, inl, inr, ◌≢◌}
use mathlib.Core.Bool.{Bool, true, false, ◌||◌}
use mathlib.Core.Option.{Option, none, some}
use mathlib.Core.List.{List, [], ◌∷◌, Memᴰ}
use text.Mathlib.Text.{◌==◌ as str_beq}
use text.Mathlib.TextEquality.{eq_iff}
use guardianbot.Prelude.Tests.{nat_beq, nat_beq_iff, Bool-cases}
use native.Mathlib.Omega.{arith}

-- A type whose values the source compares with `===`, and what the comparison decides.
pub record Eq {κ} (T : Type κ) : Type κ where
  pub beq : T → T → Bool
  pub beq_iff : (x y : T) → (beq x y ≡ true) ↔ (x ≡ y)

infix 50 ◌==◌
abbrev pub ◌==◌ {κ} : {T : Type κ} ⦃compare : Eq T⦄ → T → T → Bool
◌==◌ ⦃compare⦄ = compare.beq

instance abbrev pub string_eq : Eq String
string_eq = record { beq_iff = eq_iff; beq = str_beq }

instance abbrev pub nat_eq : Eq ℕ
nat_eq = record { beq_iff = nat_beq_iff; beq = nat_beq }

module _ {ℓ} {A : Type ℓ} ⦃e : Eq A⦄ where
  -- `array.includes(value)`, `set.has(value)`
  abbrev pub includes : List A → A → Bool
  includes [] a = false
  includes (x ∷ xs) a = x == a || includes xs a

  -- `field === value` of a field that may be missing
  abbrev pub is_value : Option A → A → Bool
  is_value none a = false
  is_value (some x) a = x == a

  pub beq_of_ne : (a b : A) → a ≢ b → (a == b) ≡ false
  beq_of_ne a b h = elim (Bool-cases (a == b)) [
    | inl same ↦ absurd (h ((e.beq_iff a b).0 same))
    | inr differ ↦ differ
  ]

  pub mem_of_includes : (xs : List A) (a : A) → includes xs a ≡ true → Memᴰ a xs
  mem_of_includes [] a h = cc
  mem_of_includes (x ∷ xs) a h = elim (Bool-cases (x == a)) [
    | inl same ↦ Memᴰ.head (sym ((e.beq_iff x a).0 same))
    | inr differ ↦ Memᴰ.tail (mem_of_includes xs a (rw differ at h))
  ]

  pub includes_of_mem : (xs : List A) {a : A} → Memᴰ a xs → includes xs a ≡ true
  includes_of_mem [] m = elim m [ ]
  includes_of_mem (x ∷ xs) {a} (Memᴰ.head same) = rw ((e.beq_iff x a).1 (sym same))
  includes_of_mem (x ∷ xs) {a} (Memᴰ.tail m) = ground (arith, includes_of_mem xs m)

  pub includes-filter :
      (p : A → Bool) (xs : List A) (a : A) → p a ≡ true → includes (filter p xs) a ≡ includes xs a
  includes-filter p [] a h = refl
  includes-filter p (x ∷ xs) a h = elim (Bool-cases (x == a)) [
    | inl same ↦
        let kept : p x ≡ true = subst (λ y. p y ≡ true) (sym ((e.beq_iff x a).0 same)) h in
        rw (kept, same)
    | inr differ ↦ elim (Bool-cases (p x)) [
      | inl kept ↦ rw (kept, differ) (includes-filter p xs a h)
      | inr left ↦ rw (left, differ) (includes-filter p xs a h)
    ]
  ]
