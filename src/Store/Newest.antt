-- ===== src/Store/Newest.antt =====
-- The buffer of src/store/store.cpp without its cache: which write of a job is the newest, and what
-- `retire` leaves of the cache.
use distributed_job_engine.Prelude.{
  take, drop, ℕ, zero, suc, ◌+◌, ◌≤◌, ◌≡◌, refl, sym, ap, ◌∙◌, subst, ◌⊎◌, inl, inr, false, Option,
  none, some, List, [], ◌∷◌, ◌++◌, ◌==◌, if◌then◌else◌, lookup, erase, lookup-erase, arith,
  Bool-cases, Option-cases,
}
use distributed_job_engine.Store.Buffer.{VersionedJob, retire}

abbrev pub or_else : {A : Type 0} → Option A → Option A → Option A
or_else (some x) o = some x
or_else none o = o

-- The last write of a job in a list.
abbrev pub latest : ℕ → List VersionedJob → Option VersionedJob
latest id [] = none
latest id (v ∷ vs) = or_else (latest id vs) (if v.job.job_id == id then some v else none)

-- How many writes there are of a job, and with a version.
abbrev pub writes_of : ℕ → List VersionedJob → ℕ
writes_of id [] = 0
writes_of id (v ∷ vs) = if v.job.job_id == id then suc (writes_of id vs) else writes_of id vs

abbrev pub versions : ℕ → List VersionedJob → ℕ
versions k [] = 0
versions k (v ∷ vs) = if v.version == k then suc (versions k vs) else versions k vs

or_else_assoc : {A : Type 0} (x y z : Option A) → or_else (or_else x y) z ≡ or_else x (or_else y z)
or_else_assoc none y z = refl
or_else_assoc (some x) y z = refl

or_none : {A : Type 0} (o : Option A) → o ≡ or_else o none
or_none none = refl
or_none (some x) = refl

pub latest-append :
    (id : ℕ) (xs ys : List VersionedJob)
    → latest id (xs ++ ys) ≡ or_else (latest id ys) (latest id xs)
latest-append id [] ys = or_none (latest id ys)
latest-append id (x ∷ xs) ys =
    ap (λ o. or_else o (if x.job.job_id == id then some x else none)) (latest-append id xs ys)
    ∙ or_else_assoc (latest id ys) (latest id xs) _

pub writes_of-append :
    (id : ℕ) (xs ys : List VersionedJob)
    → writes_of id (xs ++ ys) ≡ writes_of id xs + writes_of id ys
writes_of-append id [] ys = omega arith
writes_of-append id (x ∷ xs) ys = let h = writes_of-append id xs ys in ground (arith, h)

pub versions-append :
    (k : ℕ) (xs ys : List VersionedJob) → versions k (xs ++ ys) ≡ versions k xs + versions k ys
versions-append k [] ys = omega arith
versions-append k (x ∷ xs) ys = let h = versions-append k xs ys in ground (arith, h)

pub take-drop : (n : ℕ) (xs : List VersionedJob) → take n xs ++ drop n xs ≡ xs
unfolding take drop
take-drop zero xs = refl
take-drop (suc n) [] = refl
take-drop (suc n) (x ∷ xs) = ap (λ ys. x ∷ ys) (take-drop n xs)

pub latest-none : (id : ℕ) (xs : List VersionedJob) → writes_of id xs ≡ 0 → latest id xs ≡ none
latest-none id [] h = refl
latest-none id (x ∷ xs) h =
    let rest = latest-none id xs (ground (arith, h)) in ground (arith, rest, h)

some_inj : {A : Type 0} (x y : A) → some x ≡ some y → x ≡ y
some_inj {A} x y h = ap (λ o. elim o as (λ o'. A) [ none ↦ x | some z ↦ z ]) h

pub latest-some :
    (id : ℕ) (xs : List VersionedJob) (v : VersionedJob)
    → latest id xs ≡ some v
    → (1 ≤ writes_of id xs) × (1 ≤ versions v.version xs) × (v.job.job_id ≡ id)
latest-some id [] v h = absurd (ground (arith, h))
latest-some id (x ∷ xs) v h = elim (Option-cases (latest id xs)) [
  | inr (w, later) ↦
      let same : w ≡ v = some_inj w v (sym (rw later refl) ∙ h) in
      let rest = latest-some id xs v (later ∙ ap some same) in
      (ground (arith, rest.0), ground (arith, rest.1), rest.2)
  | inl last ↦
      let here : (if x.job.job_id == id then some x else none) ≡ some v = sym (rw last refl) ∙ h in
      elim (Bool-cases (x.job.job_id == id)) [
        | inl mine ↦
            let same : x ≡ v = some_inj x v (sym (rw mine refl) ∙ here) in
            subst
              (λ y.
                (1 ≤ writes_of id (x ∷ xs))
                × (1 ≤ versions y.version (x ∷ xs))
                × (y.job.job_id ≡ id))
              same (ground (arith, mine), ground arith, ground (arith, mine))
        | inr other ↦
            let wrong : none ≡ some v = sym (rw other refl) ∙ here in absurd (ground (arith, wrong))
      ]
]

only_last :
    (id : ℕ) (v c : VersionedJob)
    → (if v.job.job_id == id then some v else none) ≡ some c
    → (v ≡ c) × (c.job.job_id ≡ id)
only_last id v c h = elim (Bool-cases (v.job.job_id == id)) [
  | inl mine ↦
      let same : v ≡ c = some_inj v c (sym (rw mine refl) ∙ h) in
      (same, subst (λ (w : VersionedJob). w.job.job_id ≡ id) same (ground (arith, mine)))
  | inr other ↦
      let wrong : none ≡ some c = sym (rw other refl) ∙ h in absurd (ground (arith, wrong))
]

-- One turn of the loop of `retire`.
abbrev retire_one : VersionedJob → List (ℕ × VersionedJob) → List (ℕ × VersionedJob)
retire_one v cache = elim (lookup v.job.job_id cache) [
  | none ↦ cache
  | some c ↦ if c.version == v.version then erase v.job.job_id cache else cache
]

retire-step :
    (v : VersionedJob) (vs : List VersionedJob) (cache : List (ℕ × VersionedJob))
    → retire (v ∷ vs) cache ≡ retire vs (retire_one v cache)
unfolding retire
retire-step v vs cache = elim (Option-cases (lookup v.job.job_id cache)) [
  | inl missing ↦ rw (missing, retire, retire_one) refl
  | inr (c, found) ↦ rw (found, retire, retire_one) refl
]

one-lookup :
    (id : ℕ) (v : VersionedJob) (cache : List (ℕ × VersionedJob))
    → (lookup id (retire_one v cache) ≡ lookup id cache) ⊎ (lookup id (retire_one v cache) ≡ none)
one-lookup id v cache = elim (Option-cases (lookup v.job.job_id cache)) [
  | inl missing ↦ inl (rw (missing, retire_one) refl)
  | inr (c, found) ↦
      let gone = lookup-erase v.job.job_id id cache in rw (found, retire_one) (ground (arith, gone))
]

one-keeps :
    (id : ℕ) (v : VersionedJob) (cache : List (ℕ × VersionedJob)) (c : VersionedJob)
    → lookup id cache ≡ some c
    → (v.version == c.version) ≡ false
    → lookup id (retire_one v cache) ≡ some c
one-keeps id v cache c h other = elim (Option-cases (lookup v.job.job_id cache)) [
  | inl missing ↦ rw (missing, retire_one) h
  | inr (d, found) ↦
      rw (found, retire_one)
        (elim (Bool-cases (d.version == v.version)) [
          | inr kept ↦ rw kept h
          | inl hit ↦ elim (Bool-cases (v.job.job_id == id)) [
            | inr elsewhere ↦
                let gone = lookup-erase v.job.job_id id cache in
                rw hit (ground (arith, gone, elsewhere, h))
            | inl here ↦
                let eq : v.job.job_id ≡ id = ground (arith, here) in
                let same : d ≡ c = some_inj d c (sym found ∙ ap (λ k. lookup k cache) eq ∙ h) in
                let version = ap (λ (w : VersionedJob). w.version) same in
                absurd (ground (arith, hit, other, version))
          ]
        ])
]

one-drops :
    (id : ℕ) (c : VersionedJob) (cache : List (ℕ × VersionedJob))
    → lookup id cache ≡ some c
    → c.job.job_id ≡ id
    → lookup id (retire_one c cache) ≡ none
one-drops id c cache h mine =
    let found : lookup c.job.job_id cache ≡ some c =
      subst (λ k. lookup k cache ≡ some c) (sym mine) h in
    let gone = lookup-erase c.job.job_id id cache in
    rw (found, retire_one) (ground (arith, gone, mine))

pub retire-none :
    (id : ℕ) (vs : List VersionedJob) (cache : List (ℕ × VersionedJob))
    → lookup id cache ≡ none
    → lookup id (retire vs cache) ≡ none
unfolding retire
retire-none id [] cache h = h
retire-none id (v ∷ vs) cache h = rw (retire-step v vs cache) (
    retire-none id vs (retire_one v cache)
      (elim (one-lookup id v cache) [ inl same ↦ same ∙ h | inr gone ↦ gone ]))

-- A cache entry stays if no write that is retired has its version.
pub retire-keeps :
    (id : ℕ) (vs : List VersionedJob) (cache : List (ℕ × VersionedJob)) (c : VersionedJob)
    → lookup id cache ≡ some c
    → versions c.version vs ≡ 0
    → lookup id (retire vs cache) ≡ some c
unfolding retire
retire-keeps id [] cache c h other = h
retire-keeps id (v ∷ vs) cache c h other = rw (retire-step v vs cache) (
    retire-keeps id vs (retire_one v cache) c (one-keeps id v cache c h (ground (arith, other)))
      (ground (arith, other)))

-- It goes if it is the last of them.
pub retire-drops :
    (id : ℕ) (vs : List VersionedJob) (cache : List (ℕ × VersionedJob)) (c : VersionedJob)
    → lookup id cache ≡ some c
    → latest id vs ≡ some c
    → lookup id (retire vs cache) ≡ none
unfolding retire
retire-drops id [] cache c h last = absurd (ground (arith, last))
retire-drops id (v ∷ vs) cache c h last =
    rw (retire-step v vs cache) (elim (one-lookup id v cache) [
      | inr gone ↦ retire-none id vs (retire_one v cache) gone
      | inl same ↦ elim (Option-cases (latest id vs)) [
        | inr (w, later) ↦
            retire-drops id vs (retire_one v cache) c (same ∙ h)
              (later ∙ sym (rw later refl) ∙ last)
        | inl end ↦
            let here : (if v.job.job_id == id then some v else none) ≡ some c =
              sym (rw end refl) ∙ last in
            let (w, is_last) = only_last id v c here in
            retire-none id vs (retire_one v cache) (
              subst (λ x. lookup id (retire_one x cache) ≡ none) (sym w)
                (one-drops id c cache h is_last))
      ]
    ])
