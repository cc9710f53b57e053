-- ===== src/Prelude/Keys.antt =====
-- Maps from texts whose keys differ pairwise: what a write, a deletion and an entry say of a lookup.
use Prim.Native.String.{String}
use mathlib.Core.Path.{◌≡◌, refl, subst}
use mathlib.Core.Logic.{◌≢◌, inl, inr}
use mathlib.Core.Bool.{false}
use mathlib.Core.Option.{some}
use mathlib.Core.List.{List, [], ◌∷◌, Memᴰ}
use native.Mathlib.Omega.{arith}
use guardianbot.Prelude.Tests.{Bool-cases}
use guardianbot.Prelude.Lists.{All, All-mem, mem-map_inv}
use guardianbot.Prelude.Equality.{Eq, ◌==◌, string_eq, beq_of_ne}
use guardianbot.Prelude.Maps.{lookup, insert, delete, values, lookup-insert}
use guardianbot.Prelude.Distinct.{AreDistinct}

pub ne_of_beq : (j k : String) → (j == k) ≡ false → j ≢ k
ne_of_beq j k differ e = ground (arith, differ, (string_eq.beq_iff j k).1 e)

module _ {ℓ} {V : Type ℓ} where
  abbrev pub HasDistinctKeys : List (String × V) → Type ℓ
  HasDistinctKeys m = AreDistinct (λ entry. entry.0) m

  All-insert_keys {κ} :
      (P : String → Type κ) (k : String) (v : V) (m : List (String × V))
      → P k
      → All (λ entry. P entry.0) m
      → All (λ entry. P entry.0) (insert k v m)
  All-insert_keys P k v [] p h = (p, tt)
  All-insert_keys P k v ((j, w) ∷ m) p h = elim (Bool-cases (j == k)) [
    | inl same ↦ rw same h
    | inr differ ↦ rw differ (h.0, All-insert_keys P k v m p h.1)
  ]

  All-delete_keys {κ} :
      (P : String → Type κ) (k : String) (m : List (String × V))
      → All (λ entry. P entry.0) m
      → All (λ entry. P entry.0) (delete k m)
  All-delete_keys P k [] h = tt
  All-delete_keys P k ((j, w) ∷ m) h = elim (Bool-cases (j == k)) [
    | inl same ↦ rw same (All-delete_keys P k m h.1)
    | inr differ ↦ rw differ (h.0, All-delete_keys P k m h.1)
  ]

  pub insert-HasDistinctKeys :
      (k : String) (v : V) (m : List (String × V))
      → HasDistinctKeys m
      → HasDistinctKeys (insert k v m)
  unfolding AreDistinct
  insert-HasDistinctKeys k v [] h = (tt, tt)
  insert-HasDistinctKeys k v ((j, w) ∷ m) (ne, h) = elim (Bool-cases (j == k)) [
    | inl same ↦ rw same (ne, h)
    | inr differ ↦ rw differ (
      All-insert_keys (λ i. j ≢ i) k v m (ne_of_beq j k differ) ne,
      insert-HasDistinctKeys k v m h,
    )
  ]

  pub delete-HasDistinctKeys :
      (k : String) (m : List (String × V)) → HasDistinctKeys m → HasDistinctKeys (delete k m)
  unfolding AreDistinct
  delete-HasDistinctKeys k [] h = tt
  delete-HasDistinctKeys k ((j, w) ∷ m) (ne, h) = elim (Bool-cases (j == k)) [
    | inl same ↦ rw same (delete-HasDistinctKeys k m h)
    | inr differ ↦ rw differ (All-delete_keys (λ i. j ≢ i) k m ne, delete-HasDistinctKeys k m h)
  ]

  pub lookup_of_mem :
      (k : String) (v : V) (m : List (String × V))
      → HasDistinctKeys m
      → Memᴰ (k, v) m
      → lookup k m ≡ some v
  unfolding AreDistinct
  lookup_of_mem k v [] h at_entry = elim at_entry [ ]
  lookup_of_mem k v ((j, w) ∷ m) (ne, h) (Memᴰ.head same) =
      ground (arith, same, (string_eq.beq_iff j k).1)
  lookup_of_mem k v ((j, w) ∷ m) (ne, h) (Memᴰ.tail later) =
      rw (beq_of_ne j k (All-mem (λ entry. j ≢ entry.0) m ne later)) (lookup_of_mem k v m h later)

  -- A value of the map stands under some key.
  pub key_of_value :
      (v : V) (m : List (String × V)) → Memᴰ v (values m) → (k : String) × Memᴰ (k, v) m
  key_of_value v m inside =
      let (entry, at_entry, same) = mem-map_inv (λ e. e.1) m inside in
      (entry.0, subst (λ w. Memᴰ (entry.0, w) m) same at_entry)

module _ {ℓ κ} {K : Type ℓ} {V : Type κ} ⦃e : Eq K⦄ where
  pub lookup-delete_ne : (k j : K) (m : List (K × V)) → k ≢ j → lookup j (delete k m) ≡ lookup j m
  lookup-delete_ne k j [] ne = refl
  lookup-delete_ne k j ((i, w) ∷ m) ne =
      ground (arith, e.beq_iff i k, e.beq_iff i j, lookup-delete_ne k j m ne)

  pub lookup-insert_ne :
      (k j : K) (v : V) (m : List (K × V)) → k ≢ j → lookup j (insert k v m) ≡ lookup j m
  lookup-insert_ne k j v m ne = rw (lookup-insert k j v m) (rw (beq_of_ne k j ne) refl)
