-- ===== src/LruCache/Keys.antt =====
-- Which node of a list holds a key.
use brass_runtime.Base.{
  ℕ, suc, false, List, [], ◌∷◌, Option, none, some, if◌then◌else◌, ◌==◌, ◌≡◌, length, arith, refl,
  Bool-cases, inl, inr, ap, ◌∙◌, either_branch,
}
use brass_runtime.Links.{without, ◌∈◌}

module _ (key : ℕ → ℕ) where
  abbrev pub holder : ℕ → List ℕ → Option ℕ
  holder k [] = none
  holder k (a ∷ ids) = let rest = holder k ids in if key a == k then some a else rest

  abbrev pub UniqueKeys : List ℕ → Type 0
  UniqueKeys [] = Unit
  UniqueKeys (a ∷ ids) = (holder (key a) ids ≡ none) × UniqueKeys ids

  pub holder-inside : (k a : ℕ) (ids : List ℕ) → holder k ids ≡ some a → (a ∈ ids) × (key a ≡ k)
  holder-inside k a [] e = absurd (ground (arith, e))
  holder-inside k a (b ∷ ids) e = elim (Bool-cases (key b == k)) [
    | inl t ↦ ground (arith, e)
    | inr n ↦ let (m, s) = holder-inside k a ids (ground (arith, e)) in (ground (arith, m), s)
  ]

  -- A node above the list has another key.
  own_below :
      (a b : ℕ) (ids : List ℕ)
      → holder (key b) ids ≡ none
      → holder (key a) ids ≡ some a
      → holder (key a) (b ∷ ids) ≡ some a
  own_below a b ids n e = elim (Bool-cases (key b == key a)) [
    | inl t ↦
        let s : key b ≡ key a = ground arith in
        absurd (ground (arith, n, e, ap (λ k. holder k ids) s))
    | inr f ↦ simp f e
  ]

  -- A node of the list is the holder of its key.
  pub holder-own : (a : ℕ) (ids : List ℕ) → a ∈ ids → UniqueKeys ids → holder (key a) ids ≡ some a
  holder-own a [] h u = absurd (ground arith)
  holder-own a (b ∷ ids) h (n, u) = elim (Bool-cases (a == b)) [
    | inl t ↦ let s : a ≡ b = ground arith in ground (arith, ap key s)
    | inr f ↦ own_below a b ids n (holder-own a ids (ground arith) u)
  ]

  pub holder-without_ne :
      (k a : ℕ) (ids : List ℕ) → (key a == k) ≡ false → holder k (without a ids) ≡ holder k ids
  holder-without_ne k a [] n = refl
  holder-without_ne k a (b ∷ ids) n = elim (Bool-cases (a == b)) [
    | inl t ↦ let s : a ≡ b = ground arith in simp t (ground (arith, ap key s, n))
    | inr f ↦ simp f (ap (λ r. if key b == k then some b else r) (holder-without_ne k a ids n))
  ]

  pub holder-without :
      (a : ℕ) (ids : List ℕ) → a ∈ ids → UniqueKeys ids → holder (key a) (without a ids) ≡ none
  holder-without a [] h u = refl
  holder-without a (b ∷ ids) h (n, u) = elim (Bool-cases (a == b)) [
    | inl t ↦ let s : a ≡ b = ground arith in simp t (ap (λ x. holder (key x) ids) s ∙ n)
    | inr f ↦ simp f (
        ground (
          arith,
          own_below a b ids n (holder-own a ids (ground arith) u),
          holder-without a ids (ground arith) u,
        ))
  ]

  pub holder-without_absent :
      (k a : ℕ) (ids : List ℕ) → holder k ids ≡ none → holder k (without a ids) ≡ none
  holder-without_absent k a [] e = refl
  holder-without_absent k a (b ∷ ids) e = elim (Bool-cases (a == b)) [
    | inl t ↦ simp t (ground (arith, e))
    | inr f ↦ simp f (ground (arith, e, holder-without_absent k a ids (ground (arith, e))))
  ]

  pub without-UniqueKeys : (a : ℕ) (ids : List ℕ) → UniqueKeys ids → UniqueKeys (without a ids)
  without-UniqueKeys a [] u = tt
  without-UniqueKeys a (b ∷ ids) (n, u) =
      either_branch UniqueKeys (a == b) (λ t. u)
        (λ f. (holder-without_absent (key b) a ids n, without-UniqueKeys a ids u))

pub length-without : (a : ℕ) (ids : List ℕ) → a ∈ ids → length ids ≡ suc (length (without a ids))
length-without a [] h = absurd (ground arith)
length-without a (b ∷ ids) h = elim (Bool-cases (a == b)) [
  | inl t ↦ simp t refl
  | inr f ↦ simp f (ap suc (length-without a ids (ground arith)))
]

-- Two key functions that agree along the list.
pub holder-agree :
    (f g : ℕ → ℕ) (k : ℕ) (ids : List ℕ)
    → ((a : ℕ) → a ∈ ids → f a ≡ g a)
    → holder f k ids ≡ holder g k ids
holder-agree f g k [] h = refl
holder-agree f g k (a ∷ ids) h =
    ground (arith, h a (ground arith), holder-agree f g k ids (λ b m. h b (ground (arith, m))))

pub agree-UniqueKeys :
    (f g : ℕ → ℕ) (ids : List ℕ)
    → ((a : ℕ) → a ∈ ids → f a ≡ g a)
    → UniqueKeys g ids
    → UniqueKeys f ids
agree-UniqueKeys f g [] h u = tt
agree-UniqueKeys f g (a ∷ ids) h (n, u) =
    let later = λ (b : ℕ) (m : b ∈ ids). h b (ground (arith, m)) in
    (
      holder-agree f g (f a) ids later ∙ (ap (λ k. holder g k ids) (h a (ground arith)) ∙ n),
      agree-UniqueKeys f g ids later u,
    )
