-- ===== src/Prelude/Maps.antt =====
-- `Map` as an association list in insertion order: `set` on a key that is there keeps its place.
use mathlib.Core.Path.{◌≡◌, refl, ap}
use mathlib.Core.Option.{Option, none, some}
use mathlib.Core.List.{List, [], ◌∷◌, map, Memᴰ}
use native.Mathlib.Omega.{arith}
use guardianbot.Prelude.Tests.{if◌then◌else◌, Bool-cases, some-injective}
use mathlib.Core.Logic.{inl, inr, ◌≢◌}
use guardianbot.Prelude.Lists.{All}
use guardianbot.Prelude.Equality.{Eq, ◌==◌}

module _ {ℓ κ} {K : Type ℓ} {V : Type κ} ⦃e : Eq K⦄ where
  -- `map.get(key)`
  abbrev pub lookup : K → List (K × V) → Option V
  lookup k [] = none
  lookup k ((j, v) ∷ m) = let rest = lookup k m in if j == k then some v else rest

  -- `map.set(key, value)`
  abbrev pub insert : K → V → List (K × V) → List (K × V)
  insert k v [] = (k, v) ∷ []
  insert k v ((j, w) ∷ m) = let rest = insert k v m in if j == k then (j, v) ∷ m else (j, w) ∷ rest

  -- `map.delete(key)`
  abbrev pub delete : K → List (K × V) → List (K × V)
  delete k [] = []
  delete k ((j, w) ∷ m) = let rest = delete k m in if j == k then rest else (j, w) ∷ rest

  pub lookup-insert :
      (k j : K) (v : V) (m : List (K × V))
      → lookup j (insert k v m) ≡ (if k == j then some v else lookup j m)
  lookup-insert k j v [] = refl
  lookup-insert k j v ((i, w) ∷ m) =
      ground (arith, e.beq_iff k j, e.beq_iff i k, e.beq_iff i j, lookup-insert k j v m)

-- `[...map.values()]`
abbrev pub values {ℓ κ} : {K : Type ℓ} {V : Type κ} → List (K × V) → List V
values = map (λ entry. entry.1)

module _ {ℓ κ} {K : Type ℓ} {V : Type κ} ⦃e : Eq K⦄ where
  pub lookup-insert_self : (k : K) (v : V) (m : List (K × V)) → lookup k (insert k v m) ≡ some v
  lookup-insert_self k v m = rw (lookup-insert k k v m) (rw ((e.beq_iff k k).1 refl))

  pub mem_of_lookup : (k : K) (v : V) (m : List (K × V)) → lookup k m ≡ some v → Memᴰ v (values m)
  mem_of_lookup k v [] h = cc
  mem_of_lookup k v ((j, w) ∷ m) h = elim (Bool-cases (j == k)) [
    | inl same ↦ Memᴰ.head (ground (arith, same))
    | inr differ ↦ Memᴰ.tail (mem_of_lookup k v m (ground (arith, differ)))
  ]

  -- What holds of the value and of all that was there holds of all that is there after the write.
  pub All-insert {η} :
      (P : V → Type η) (k : K) (v : V) (m : List (K × V))
      → P v
      → All P (values m)
      → All P (values (insert k v m))
  All-insert P k v [] p h = (p, tt)
  All-insert P k v ((j, w) ∷ m) p h = elim (Bool-cases (j == k)) [
    | inl same ↦ rw same (p, h.1)
    | inr differ ↦ rw differ (h.0, All-insert P k v m p h.1)
  ]

module _ {ℓ κ} {K : Type ℓ} {V : Type κ} ⦃e : Eq K⦄ where
  pub lookup-delete_self : (k : K) (m : List (K × V)) → lookup k (delete k m) ≡ none
  lookup-delete_self k [] = refl
  lookup-delete_self k ((j, w) ∷ m) = elim (Bool-cases (j == k)) [
    | inl same ↦ rw same (lookup-delete_self k m)
    | inr differ ↦ rw (differ, differ) (lookup-delete_self k m)
  ]

  -- `map` on the values, with the keys in place
  abbrev pub map_values : (V → V) → List (K × V) → List (K × V)
  map_values f [] = []
  map_values f ((j, w) ∷ m) = (j, f w) ∷ map_values f m

  pub lookup-map_values :
      (f : V → V) (k : K) (m : List (K × V)) {v : V}
      → lookup k m ≡ some v
      → lookup k (map_values f m) ≡ some (f v)
  lookup-map_values f k [] h = cc
  lookup-map_values f k ((j, w) ∷ m) {v} h = elim (Bool-cases (j == k)) [
    | inl same ↦ rw same (ap (λ o. get_mapped o) (rw same at h))
    | inr differ ↦ rw differ (lookup-map_values f k m (rw differ at h))
  ]
    where
      get_mapped : Option V → Option V
      get_mapped none = none
      get_mapped (some x) = some (f x)

  pub All-map_values {η ι} :
      (Q : V → Type ι) (P : V → Type η) (f : V → V) (m : List (K × V))
      → ((v : V) → Q v → P (f v))
      → All Q (values m)
      → All P (values (map_values f m))
  All-map_values Q P f [] h k = tt
  All-map_values Q P f ((j, w) ∷ m) h (q, k) = (h w q, All-map_values Q P f m h k)

  pub All-tt : (m : List (K × V)) → All (λ v. Unit {0}) (values m)
  All-tt [] = tt
  All-tt ((j, w) ∷ m) = (tt, All-tt m)

  pub insert_nonempty : (k : K) (v : V) (m : List (K × V)) → insert k v m ≢ []
  insert_nonempty k v [] e = cc
  insert_nonempty k v ((j, w) ∷ m) e = elim (Bool-cases (j == k)) [
    | inl same ↦ absurd (ground (arith, same, e))
    | inr differ ↦ absurd (ground (arith, differ, e))
  ]

pub mem_of_lookup_entry {ℓ κ} :
    {K : Type ℓ} {V : Type κ} ⦃e : Eq K⦄ (k : K) (v : V) (m : List (K × V))
    → lookup k m ≡ some v
    → Memᴰ (k, v) m
mem_of_lookup_entry k v [] h = cc
mem_of_lookup_entry ⦃e⦄ k v ((j, w) ∷ m) h = elim (Bool-cases (j == k)) [
  | inl same ↦
      let value : w ≡ v = some-injective w v (rw same at h) in
      Memᴰ.head (cc (value, (e.beq_iff j k).0 same))
  | inr differ ↦ Memᴰ.tail (mem_of_lookup_entry k v m (rw differ at h))
]
