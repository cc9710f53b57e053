-- ===== src/Ingest/Bound/Priority.antt =====
-- `enforceFindingLifecycleBound`: lemmas on the order in which records are dropped.
use guardianbot.Prelude.{
  ℕ, List, Bool, String, ◌∷◌, ◌≤◌, ◌≡◌, All, take, true, false, values, arith, drop, insert_sorted,
  sort, delete, Bool-cases, ◌≢◌, suc, subst, ◌==◌, inl, sym, inr, All-mem, All-insert_sorted,
  string_eq, refl, mem-drop, ◌∙◌, All-members, length, ◌-◌, All-sort, mem-take_or_drop, leb,
  mem-map,
}
use guardianbot.Ingest.Records.{FindingRecord}
use guardianbot.Ingest.Bound.{
  drop_before, as_number, is_open_critical_or_high, then_by, remove_all, drop_rest, enforce_bound,
  dropped_records, retired_records, fingerprints,
}
use guardianbot.Ingest.Bound.Kept.{
  AreKeyed, All-delete, delete-AreKeyed, retired_records_lem, length-remove_all,
}
use guardianbot.Prelude.Js.{Dates}
use mathlib.Core.List.{Memᴰ, []}
use guardianbot.Ingest.Merge.{Records}
use Prim.Native.Nat.{zero}

-- A list in the order of a key that the comparison respects.
module _ {ℓ} {A : Type ℓ} (key : A → ℕ) where
  unfoldable pub AreOrdered : List A → Type ℓ
  AreOrdered [] = Unit
  AreOrdered (x ∷ xs) = All (λ y. key x ≤ key y) xs × AreOrdered xs

  All-above : (n m : ℕ) (xs : List A) → n ≤ m → All (λ y. m ≤ key y) xs → All (λ y. n ≤ key y) xs
  All-above n m [] h k = tt
  All-above n m (x ∷ xs) h (p, k) = (omega (arith, h, p), All-above n m xs h k)

  take-drop-AreOrdered :
      (n : ℕ) (xs : List A) {a b : A}
      → AreOrdered xs
      → Memᴰ a (take n xs)
      → Memᴰ b (drop n xs)
      → key a ≤ key b
  unfolding AreOrdered
  take-drop-AreOrdered zero xs h m k = elim m [ ]
  take-drop-AreOrdered (suc n) [] h m k = elim m [ ]
  take-drop-AreOrdered (suc n) (x ∷ xs) {a} {b} (above, h) (Memᴰ.head e) k =
      subst (λ y. key y ≤ key b) (sym e) (All-mem _ xs above (mem-drop n xs k))
  take-drop-AreOrdered (suc n) (x ∷ xs) (above, h) (Memᴰ.tail m) k = take-drop-AreOrdered n xs h m k

  module _ (before : A → A → Bool) (yes : (a b : A) → before a b ≡ true → key a ≤ key b)
      (no : (a b : A) → before a b ≡ false → key b ≤ key a) where
    insert_sorted-AreOrdered :
        (a : A) (xs : List A) → AreOrdered xs → AreOrdered (insert_sorted before a xs)
    unfolding AreOrdered insert_sorted
    insert_sorted-AreOrdered a [] h = (tt, tt)
    insert_sorted-AreOrdered a (x ∷ xs) (above, h) = elim (Bool-cases (before a x)) [
      | inl here ↦
          rw here ((yes a x here, All-above (key a) (key x) xs (yes a x here) above), (above, h))
      | inr there ↦ rw there (
        (All-insert_sorted before (λ y. key x ≤ key y) a xs).0 (no a x there, above),
        insert_sorted-AreOrdered a xs h,
      )
    ]

    sort-AreOrdered : (xs : List A) → AreOrdered (sort before xs)
    unfolding AreOrdered sort
    sort-AreOrdered [] = tt
    sort-AreOrdered (x ∷ xs) = insert_sorted-AreOrdered x (sort before xs) (sort-AreOrdered xs)

abbrev rank : FindingRecord → ℕ
rank r = as_number (is_open_critical_or_high r)

then_by-yes : (m n : ℕ) (rest : Bool) → then_by m n rest ≡ true → m ≤ n
then_by-yes m n rest h = ground (arith, h)

then_by-no : (m n : ℕ) (rest : Bool) → then_by m n rest ≡ false → n ≤ m
then_by-no m n rest h = ground (arith, h)

drop_before-yes :
    (dates : Dates) (a b : FindingRecord) → drop_before dates a b ≡ true → rank a ≤ rank b
unfolding drop_before
drop_before-yes dates a b h = then_by-yes (rank a) (rank b) _ h

drop_before-no :
    (dates : Dates) (a b : FindingRecord) → drop_before dates a b ≡ false → rank b ≤ rank a
unfolding drop_before
drop_before-no dates a b h = then_by-no (rank a) (rank b) _ h

delete_absent-All :
    (k : String) (records : Records)
    → AreKeyed records
    → All (λ s. k ≢ s.fingerprint) (values (delete k records))
unfolding AreKeyed
delete_absent-All k [] keyed = tt
delete_absent-All k ((j, w) ∷ records) (e, ne, keyed) = elim (Bool-cases (j == k)) [
  | inl same ↦ rw same (delete_absent-All k records keyed)
  | inr differ ↦ rw differ (
    (λ kw. ground (arith, differ, (string_eq.beq_iff j k).1 (e ∙ sym kw))),
    delete_absent-All k records keyed,
  )
]

All-remove_all {κ} :
    (P : FindingRecord → Type κ) (ks : List String) (records : Records)
    → All P (values records)
    → All P (values (remove_all ks records))
unfolding remove_all
All-remove_all P [] records h = h
All-remove_all P (k ∷ ks) records h =
    All-remove_all P ks (delete k records) (All-delete P k records h)

-- What is left after a removal was there, under a fingerprint that was not removed.
kept_not_gone :
    (ks : List String) (records : Records) (s : FindingRecord)
    → AreKeyed records
    → Memᴰ s (values (remove_all ks records))
    → All (λ k. k ≢ s.fingerprint) ks
unfolding remove_all
kept_not_gone [] records s keyed m = tt
kept_not_gone (k ∷ ks) records s keyed m = (
  All-mem _ (values (remove_all ks (delete k records)))
      (All-remove_all (λ r. k ≢ r.fingerprint) ks (delete k records)
        (delete_absent-All k records keyed))
      m,
  kept_not_gone ks (delete k records) s (delete-AreKeyed k records keyed) m,
)

kept_was_there :
    (ks : List String) (records : Records) (s : FindingRecord)
    → Memᴰ s (values (remove_all ks records))
    → Memᴰ s (values records)
kept_was_there ks records s m =
    All-mem (λ r. Memᴰ r (values records)) (values (remove_all ks records))
      (All-remove_all _ ks records (All-members _ (values records) (λ r k. k))) m

drop_rest-rank :
    (dates : Dates) (bound : ℕ) (retired : List String) (records : Records) (d s : FindingRecord)
    → AreKeyed records
    → Memᴰ d (drop_rest dates bound retired records).dropped
    → Memᴰ s (values (drop_rest dates bound retired records).kept)
    → rank d ≤ rank s
unfolding drop_rest dropped_records
drop_rest-rank dates bound retired records d s keyed gone kept =
    let n = length records - bound in
    let sorted = sort (drop_before dates) (values records) in
    let there = kept_was_there (fingerprints (take n sorted)) records s kept in
    let placed =
      All-mem (λ r. Memᴰ r sorted) (values records)
        ((All-sort (drop_before dates) (λ r. Memᴰ r sorted) (values records)).1
          (All-members _ sorted (λ r m. m)))
        there in
    elim (mem-take_or_drop n sorted placed) [
      | inl taken ↦ absurd (
          All-mem _ (fingerprints (take n sorted))
            (kept_not_gone (fingerprints (take n sorted)) records s keyed kept)
            (mem-map (λ (r : FindingRecord). r.fingerprint) (take n sorted) taken) refl)
      | inr left ↦
          take-drop-AreOrdered rank n sorted
            (sort-AreOrdered rank (drop_before dates) (drop_before-yes dates) (drop_before-no dates)
              (values records))
            gone left
    ]

as_number_mono : (a b : Bool) → a ≡ true → as_number a ≤ as_number b → b ≡ true
as_number_mono a b h k = ground (arith, h, k)

-- An open Critical or High record is dropped only where every record that is kept is an open Critical
-- or High one.
pub enforce_bound-priority :
    (dates : Dates) (bound : ℕ) (records : Records) (d s : FindingRecord)
    → AreKeyed records
    → Memᴰ d (enforce_bound dates bound records).dropped
    → Memᴰ s (values (enforce_bound dates bound records).kept)
    → is_open_critical_or_high d ≡ true
    → is_open_critical_or_high s ≡ true
unfolding enforce_bound
enforce_bound-priority dates bound records d s keyed gone kept urgent =
    let retired = retired_records dates (length records - bound) records in
    let (distinct, there) = retired_records_lem dates (length records - bound) records keyed in
    let (counted, still) = length-remove_all retired records keyed distinct there in
    elim (Bool-cases (leb (length records) bound)) [
      | inl fits ↦ elim (rw fits at gone) [ ]
      | inr over ↦ as_number_mono _ _ urgent (
          drop_rest-rank dates bound (fingerprints retired)
            (remove_all (fingerprints retired) records) d s still (rw over at gone)
            (rw over at kept))
    ]
