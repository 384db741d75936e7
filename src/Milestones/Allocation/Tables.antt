-- ===== src/Milestones/Allocation/Tables.antt =====
-- What single changes of the tables do to the allocation.
use pactagent.Prelude.{
  ℕ, ◌≤◌, ◌<◌, ◌≡◌, refl, Bool, true, nat_eq, arith, some, List, [], ◌∷◌, All, find_first,
  update_rows, Bool-cases, inl, inr,
}
use pactagent.Store.Rows.{Agreement, Milestone}
use pactagent.Repository.Raw.{SameTerms, SameShare}
use pactagent.Repository.Agreements.{is_agreement}
use pactagent.Milestones.Allocation.{allocated}

pub All-mono :
    {A : Type 0} (f : A → ℕ) (xs : List A) {m n : ℕ}
    → m ≤ n
    → All (λ x. f x < m) xs
    → All (λ x. f x < n) xs
All-mono f [] le h = tt
All-mono f (x ∷ xs) le h = (omega (arith, h.0), All-mono f xs le h.1)

pub All-update_rows :
    {A : Type 0} (f : A → ℕ) (n : ℕ) (test : A → Bool) (change : A → A) (xs : List A)
    → ((x : A) → test x ≡ true → f (change x) ≡ f x)
    → All (λ x. f x < n) xs
    → All (λ x. f x < n) (update_rows test change xs)
unfolding update_rows
All-update_rows f n test change [] same h = tt
All-update_rows f n test change (x ∷ xs) same h = (
  elim (Bool-cases (test x)) [
    | inl t ↦ ground (arith, same x t, h.0)
    | inr t ↦ ground (arith, h.0)
  ],
  All-update_rows f n test change xs same h.1,
)

pub allocated-update_rows :
    (app id : ℕ) (test : Milestone → Bool) (change : Milestone → Milestone) (xs : List Milestone)
    → ((x : Milestone) → test x ≡ true → SameShare x (change x))
    → allocated app id (update_rows test change xs) ≡ allocated app id xs
unfolding update_rows allocated
allocated-update_rows app id test change [] same = refl
allocated-update_rows app id test change (x ∷ xs) same = elim (Bool-cases (test x)) [
  | inl t ↦
      let s = same x t in
      ground (
        arith,
        s.app_id,
        s.agreement_id,
        s.amount,
        allocated-update_rows app id test change xs same,
      )
  | inr t ↦ ground (arith, allocated-update_rows app id test change xs same)
]

-- An agreement that is found after a change of the terms was there before it, with its amount.
pub found-update_rows :
    (app id : ℕ) (test : Agreement → Bool) (change : Agreement → Agreement) (xs : List Agreement)
    (a : Agreement)
    → ((x : Agreement) → test x ≡ true → SameTerms x (change x))
    → find_first (is_agreement app id) (update_rows test change xs) ≡ some a
    → (b : Agreement) × (find_first (is_agreement app id) xs ≡ some b) × (a.amount ≡ b.amount)
unfolding update_rows find_first
found-update_rows app id test change [] a same h = absurd (cc)
found-update_rows app id test change (x ∷ xs) a same h = elim (Bool-cases (test x)) [
  | inl t ↦
      let s = same x t in
      elim (Bool-cases (is_agreement app id x)) [
        | inl i ↦
            let e : change x ≡ a = ground (arith, s.id, s.app_id) in
            (x, ground arith, cc (e, s.amount))
        | inr i ↦
            let e : find_first (is_agreement app id) (update_rows test change xs) ≡ some a =
              ground (arith, s.id, s.app_id) in
            let (b, found, amount) = found-update_rows app id test change xs a same e in
            (b, ground arith, amount)
      ]
  | inr t ↦ elim (Bool-cases (is_agreement app id x)) [
    | inl i ↦ (a, ground arith, refl)
    | inr i ↦
        let e : find_first (is_agreement app id) (update_rows test change xs) ≡ some a =
          ground arith in
        let (b, found, amount) = found-update_rows app id test change xs a same e in
        (b, ground arith, amount)
  ]
]

-- An agreement that no milestone is of.
pub allocated-fresh :
    (app id n : ℕ) (xs : List Milestone)
    → All (λ (x : Milestone). x.agreement_id < n) xs
    → n ≤ id
    → allocated app id xs ≡ 0
unfolding allocated
allocated-fresh app id n [] h le = refl
allocated-fresh app id n (x ∷ xs) h le = ground (arith, h.0, allocated-fresh app id n xs h.1 le)

pub found-All :
    (app id n : ℕ) (xs : List Agreement) {a : Agreement}
    → All (λ (x : Agreement). x.id < n) xs
    → find_first (is_agreement app id) xs ≡ some a
    → id < n
unfolding find_first
found-All app id n [] h e = absurd (cc)
found-All app id n (x ∷ xs) {a} h found = elim (Bool-cases (is_agreement app id x)) [
  | inl t ↦ ground (arith, h.0)
  | inr t ↦
      let e : find_first (is_agreement app id) xs ≡ some a = ground arith in
      found-All app id n xs h.1 e
]
