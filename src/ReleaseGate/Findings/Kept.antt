-- ===== src/ReleaseGate/Findings/Kept.antt =====
-- `evaluateReleaseGate`, the index of findings by id: lemmas on the record that is kept.
use guardianbot.ReleaseGate.Types.{DojoFinding}
use guardianbot.Prelude.{
  List, ◌≡◌, ℕ, lookup, true, some, ◌≤◌, Option-cases, insert, inl, Bool-cases, inr, ltb, ◌==◌,
  lookup-insert, arith, lookup-insert_self, Option, All, not, ◌∷◌, values, ◌↔◌, All-insert, ◌||◌,
  subst,
}
use guardianbot.ReleaseGate.Findings.{
  keep_detailed, risk_count, index_finding, index_findings, FindingIndex,
}
use guardianbot.Prelude.Js.{is_safe_integer, Number, number_eq, number_beq_iff}
use mathlib.Core.Option.{some-injective, none}
use mathlib.Core.List.{[], Memᴰ}

abbrev pub IsWellFormed : DojoFinding → Type 0
IsWellFormed f = (is_safe_integer f.id ≡ true) × (is_safe_integer f.test ≡ true)

-- A record of the key, as detailed as the given one.
abbrev pub Holds : List (Number × DojoFinding) → Number → ℕ → Type 0
Holds m k n = (g : DojoFinding) × (lookup k m ≡ some g) × (n ≤ risk_count g)

insert-Holds :
    (m : List (Number × DojoFinding)) (k j : Number) (f : DojoFinding) (n : ℕ)
    → (k ≡ j → n ≤ risk_count f)
    → Holds m j n
    → Holds (insert k f m) j n
insert-Holds m k j f n better (g, found, le) = elim (Bool-cases (k == j)) [
  | inl same ↦ (f, rw (lookup-insert k j f m) (rw same), better ((number_beq_iff k j).0 same))
  | inr differ ↦ (g, rw (lookup-insert k j f m) (rw differ found), le)
]

keep_detailed-Holds :
    (f : DojoFinding) (m : List (Number × DojoFinding)) (j : Number) (n : ℕ)
    → Holds m j n
    → Holds (keep_detailed f (lookup f.id m) m) j n
unfolding keep_detailed
keep_detailed-Holds f m j n h = elim (Option-cases (lookup f.id m)) [
  | inl e ↦ rw (e, keep_detailed) (insert-Holds m f.id j f n (λ same. absurd (cc (e, h.1, same))) h)
  | inr (x, e) ↦ elim (Bool-cases (ltb (risk_count x) (risk_count f))) [
    | inl more ↦
        rw (e, keep_detailed)
          (rw more (
            insert-Holds m f.id j f n
              (λ same.
                let old : x ≡ h.0 = some-injective _ _ (cc (e, same, h.1)) in
                ground (arith, more, old, h.2))
              h))
    | inr less ↦ rw (e, keep_detailed) (rw less h)
  ]
]

keep_detailed-new :
    (f : DojoFinding) (m : List (Number × DojoFinding))
    → Holds (keep_detailed f (lookup f.id m) m) f.id (risk_count f)
unfolding keep_detailed
keep_detailed-new f m = elim (Option-cases (lookup f.id m)) [
  | inl e ↦ rw (e, keep_detailed) (f, lookup-insert_self f.id f m, omega arith)
  | inr (x, e) ↦ elim (Bool-cases (ltb (risk_count x) (risk_count f))) [
    | inl more ↦ rw (e, keep_detailed) (rw more (f, lookup-insert_self f.id f m, omega arith))
    | inr less ↦ rw (e, keep_detailed) (rw less (x, e, ground arith))
  ]
]

index_finding-Holds :
    (f : DojoFinding) (index : FindingIndex) (j : Number) (n : ℕ)
    → Holds index.findings j n
    → Holds (index_finding f index).findings j n
unfolding index_finding
index_finding-Holds f index j n h =
    elim (Bool-cases (not (is_safe_integer f.id) || not (is_safe_integer f.test))) [
      | inl bad ↦ rw bad h
      | inr good ↦ rw good (keep_detailed-Holds f index.findings j n h)
    ]

index_finding-new :
    (f : DojoFinding) (index : FindingIndex)
    → IsWellFormed f
    → Holds (index_finding f index).findings f.id (risk_count f)
unfolding index_finding
index_finding-new f index (id, test) = rw (id, test) (keep_detailed-new f index.findings)

index_findings-Holds :
    (fs : List DojoFinding) (index : FindingIndex) (j : Number) (n : ℕ)
    → Holds index.findings j n
    → Holds (index_findings fs index).findings j n
unfolding index_findings
index_findings-Holds [] index j n h = h
index_findings-Holds (f ∷ fs) index j n h =
    index_findings-Holds fs (index_finding f index) j n (index_finding-Holds f index j n h)

pub index_findings-new :
    (fs : List DojoFinding) (index : FindingIndex) {f : DojoFinding}
    → Memᴰ f fs
    → IsWellFormed f
    → Holds (index_findings fs index).findings f.id (risk_count f)
unfolding index_findings
index_findings-new [] index m w = elim m [ ]
index_findings-new (g ∷ fs) index {f} (Memᴰ.head e) w =
    index_findings-Holds fs (index_finding g index) f.id (risk_count f) (
      subst (λ x. Holds (index_finding x index).findings f.id (risk_count f)) e
        (index_finding-new f index w))
index_findings-new (g ∷ fs) index (Memᴰ.tail m) w =
    index_findings-new fs (index_finding g index) m w

-- Every kept record is a listed one.
keep_detailed-All {κ} :
    (P : DojoFinding → Type κ) (f : DojoFinding) (o : Option DojoFinding)
    (m : List (Number × DojoFinding))
    → P f
    → All P (values m)
    → All P (values (keep_detailed f o m))
unfolding keep_detailed
keep_detailed-All P f none m p h = All-insert P f.id f m p h
keep_detailed-All P f (some x) m p h = elim (Bool-cases (ltb (risk_count x) (risk_count f))) [
  | inl more ↦ rw more (All-insert P f.id f m p h)
  | inr less ↦ rw less h
]

pub index_findings-All {κ} :
    (P : DojoFinding → Type κ) (fs : List DojoFinding) (index : FindingIndex)
    → All P fs
    → All P (values index.findings)
    → All P (values (index_findings fs index).findings)
unfolding index_findings index_finding
index_findings-All P [] index p h = h
index_findings-All P (f ∷ fs) index (p, ps) h =
    index_findings-All P fs (index_finding f index) ps
      (elim (Bool-cases (not (is_safe_integer f.id) || not (is_safe_integer f.test))) [
        | inl bad ↦ rw bad h
        | inr good ↦ rw good (keep_detailed-All P f (lookup f.id index.findings) index.findings p h)
      ])

index_finding_malformed :
    (f : DojoFinding) (index : FindingIndex)
    → ((index_finding f index).malformed ≡ 0) ↔ ((index.malformed ≡ 0) × IsWellFormed f)
unfolding index_finding
index_finding_malformed f index = (
  (λ h. (ground arith, (ground arith, ground arith))),
  (λ (none_yet, (id, test)). rw (id, test) none_yet),
)

-- The count of malformed findings stays 0 exactly when all are well formed.
pub index_findings_malformed :
    (fs : List DojoFinding) (index : FindingIndex)
    → ((index_findings fs index).malformed ≡ 0) ↔ ((index.malformed ≡ 0) × All IsWellFormed fs)
unfolding index_findings
index_findings_malformed [] index = ((λ h. (h, tt)), (λ h. h.0))
index_findings_malformed (f ∷ fs) index =
    let rest = index_findings_malformed fs (index_finding f index) in
    let here = index_finding_malformed f index in
    (
      (λ h. let (a, b) = rest.0 h in let (c, d) = here.0 a in (c, (d, b))),
      (λ (none_yet, (d, b)). rest.1 (here.1 (none_yet, d), b)),
    )

-- The records stand under their own ids.
abbrev pub IsKeyed : List (Number × DojoFinding) → Type 0
IsKeyed m = (k : Number) (g : DojoFinding) → lookup k m ≡ some g → g.id ≡ k

insert-IsKeyed :
    (f : DojoFinding) (m : List (Number × DojoFinding)) → IsKeyed m → IsKeyed (insert f.id f m)
insert-IsKeyed f m keyed k g found = elim (Bool-cases (f.id == k)) [
  | inl same ↦
      let written : f ≡ g =
        some-injective _ _ (rw same at (rw (lookup-insert f.id k f m) at found)) in
      rw (← written) ((number_beq_iff f.id k).0 same)
  | inr differ ↦ keyed k g (rw differ at (rw (lookup-insert f.id k f m) at found))
]

keep_detailed-IsKeyed :
    (f : DojoFinding) (o : Option DojoFinding) (m : List (Number × DojoFinding))
    → IsKeyed m
    → IsKeyed (keep_detailed f o m)
unfolding keep_detailed
keep_detailed-IsKeyed f none m keyed = insert-IsKeyed f m keyed
keep_detailed-IsKeyed f (some x) m keyed = elim (Bool-cases (ltb (risk_count x) (risk_count f))) [
  | inl more ↦ rw more (insert-IsKeyed f m keyed)
  | inr less ↦ rw less keyed
]

pub index_findings-IsKeyed :
    (fs : List DojoFinding) (index : FindingIndex)
    → IsKeyed index.findings
    → IsKeyed (index_findings fs index).findings
unfolding index_findings index_finding
index_findings-IsKeyed [] index keyed = keyed
index_findings-IsKeyed (f ∷ fs) index keyed =
    index_findings-IsKeyed fs (index_finding f index)
      (elim (Bool-cases (not (is_safe_integer f.id) || not (is_safe_integer f.test))) [
        | inl bad ↦ rw bad keyed
        | inr good ↦
            rw good (keep_detailed-IsKeyed f (lookup f.id index.findings) index.findings keyed)
      ])
