-- ===== src/Links/Unlink.antt =====
-- A node of a doubly linked list is bypassed: what becomes of the pointers of the others.
use brass_runtime.Base.{
  ℕ, List, [], ◌∷◌, Option, none, some, ◌==◌, is_some, if◌then◌else◌, ◌≡◌, arith, refl, Bool-cases,
  ◌⊎◌, inl, inr, either_branch,
}
use brass_runtime.Links.{
  write, write_at, ◌∈◌, ◌∉◌, first, last_from, without, Distinct, Forwards, Backwards,
}

-- A write outside the list is not seen along it.
pub Forwards-write :
    (next : ℕ → Option ℕ) (a : ℕ) (x : Option ℕ) (ids : List ℕ)
    → a ∉ ids
    → Forwards next ids
    → Forwards (write next a x) ids
Forwards-write next a x [] out f = tt
Forwards-write next a x (b ∷ ids) out (e, f) =
    (ground (arith, e), Forwards-write next a x ids (ground arith) f)

pub Backwards-write :
    (prev : ℕ → Option ℕ) (a : ℕ) (x p : Option ℕ) (ids : List ℕ)
    → a ∉ ids
    → Backwards prev p ids
    → Backwards (write prev a x) p ids
Backwards-write prev a x p [] out f = tt
Backwards-write prev a x p (b ∷ ids) out (e, f) =
    (ground (arith, e), Backwards-write prev a x (some b) ids (ground arith) f)

pub out_of_without : (a b : ℕ) (ids : List ℕ) → b ∉ ids → b ∉ without a ids
out_of_without a b [] out = refl
out_of_without a b (c ∷ ids) out = ground (arith, out_of_without a b ids (ground arith))

pub without-Distinct :
    (a : ℕ) (ids : List ℕ) → Distinct ids → Distinct (without a ids) × (a ∉ without a ids)
without-Distinct a [] d = (tt, refl)
without-Distinct a (b ∷ ids) (out, d) =
    let (r, gone) = without-Distinct a ids d in
    either_branch (λ ys. Distinct ys × (a ∉ ys)) (a == b) (λ t. (d, ground (arith, out)))
      (λ n. ((out_of_without a b ids out, r), ground (arith, gone)))

-- A node that `next` leads to is in the list.
pub next_inside :
    (next : ℕ → Option ℕ) (a b : ℕ) (ids : List ℕ)
    → a ∈ ids
    → Forwards next ids
    → next a ≡ some b
    → b ∈ ids
next_inside next a b [] h f e = absurd (ground arith)
next_inside next a b (c ∷ []) h (e', f) e = ground (arith, e', e)
next_inside next a b (c ∷ d ∷ ids) h (e', f) e = elim (Bool-cases (a == c)) [
  | inl t ↦ ground (arith, e', e)
  | inr n ↦ ground (arith, next_inside next a b (d ∷ ids) (ground arith) f e)
]

pub prev_inside :
    (prev : ℕ → Option ℕ) (p : Option ℕ) (a : ℕ) (ids : List ℕ)
    → a ∈ ids
    → Backwards prev p ids
    → (prev a ≡ p) ⊎ (b : ℕ) × (prev a ≡ some b) × (b ∈ ids)
prev_inside prev p a [] h f = absurd (ground arith)
prev_inside prev p a (c ∷ ids) h (e, f) = elim (Bool-cases (a == c)) [
  | inl t ↦ inl (ground (arith, e))
  | inr n ↦ elim (prev_inside prev (some c) a ids (ground arith) f) [
    | inl here ↦ inr (c, here, ground arith)
    | inr (b, there, m) ↦ inr (b, there, ground (arith, m))
  ]
]

-- A node that may be null is not in the list.
abbrev pub OutOf : Option ℕ → List ℕ → Type 0
OutOf none ids = Unit
OutOf (some b) ids = b ∉ ids

OutOf-tail : (p : Option ℕ) (b : ℕ) (ids : List ℕ) → OutOf p (b ∷ ids) → OutOf p ids
OutOf-tail none b ids out = tt
OutOf-tail (some a) b ids out = ground (arith, out)

Forwards-write_at :
    (next : ℕ → Option ℕ) (o x : Option ℕ) (ids : List ℕ)
    → OutOf o ids
    → Forwards next ids
    → Forwards (write_at next o x) ids
Forwards-write_at next none x [] out f = tt
Forwards-write_at next none x (a ∷ ids) out (e, f) = (e, Forwards-write_at next none x ids tt f)
Forwards-write_at next (some b) x ids out f = Forwards-write next b x ids out f

-- What the node before the list points to.
bypass_first :
    (next prev : ℕ → Option ℕ) (b a : ℕ) (ids : List ℕ)
    → a ∈ ids
    → b ∉ ids
    → next b ≡ first ids
    → Forwards next ids
    → Backwards prev (some b) ids
    → write_at next (prev a) (next a) b ≡ first (without a ids)
bypass_first next prev b a [] h out e f g = absurd (ground arith)
bypass_first next prev b a (c ∷ ids) h out e (e', f) (e'', g) = elim (Bool-cases (a == c)) [
  | inl t ↦ let q : prev a ≡ some b = ground (arith, e'') in simp (q, t) (ground (arith, e'))
  | inr n ↦ elim (prev_inside prev (some c) a ids (ground arith) g) [
    | inl here ↦ simp (here, n) (ground (arith, e))
    | inr (d, there, m) ↦ simp (there, n) (ground (arith, e))
  ]
]

pub Forwards-without :
    (next prev : ℕ → Option ℕ) (p : Option ℕ) (a : ℕ) (ids : List ℕ)
    → a ∈ ids
    → OutOf p ids
    → Distinct ids
    → Forwards next ids
    → Backwards prev p ids
    → Forwards (write_at next (prev a) (next a)) (without a ids)
Forwards-without next prev p a [] h out d f g = tt
Forwards-without next prev p a (b ∷ ids) h out (apart, d) (e, f) (e', g) =
    elim (Bool-cases (a == b)) [
      | inl t ↦
          let q : prev a ≡ p = ground (arith, e') in
          simp (q, t) (Forwards-write_at next p (next a) ids (OutOf-tail p b ids out) f)
      | inr n ↦ simp n (
        bypass_first next prev b a ids (ground arith) apart e f g,
        Forwards-without next prev (some b) a ids (ground arith) apart d f g,
      )
    ]

relink_first :
    (prev : ℕ → Option ℕ) (p q : Option ℕ) (ids : List ℕ)
    → Distinct ids
    → Backwards prev q ids
    → Backwards (write_at prev (first ids) p) p ids
relink_first prev p q [] d g = tt
relink_first prev p q (c ∷ ids) (out, d) (e, g) =
    (ground arith, Backwards-write prev c p (some c) ids out g)

pub Backwards-without :
    (next prev : ℕ → Option ℕ) (p : Option ℕ) (a : ℕ) (ids : List ℕ)
    → a ∈ ids
    → Distinct ids
    → Forwards next ids
    → Backwards prev p ids
    → Backwards (write_at prev (next a) (prev a)) p (without a ids)
Backwards-without next prev p a [] h d f g = tt
Backwards-without next prev p a (b ∷ ids) h (apart, d) (e, f) (e', g) = elim (Bool-cases (a == b)) [
  | inl t ↦
      let q : prev a ≡ p = ground (arith, e') in
      let n : next a ≡ first ids = ground (arith, e) in
      simp (q, n, t) (relink_first prev p (some b) ids d g)
  | inr n ↦ simp n (
    kept_first (next a) (λ c. next_inside next a c ids (ground arith) f),
    Backwards-without next prev (some b) a ids (ground arith) d f g,
  )
]
  where
    kept_first : (o : Option ℕ) → ((c : ℕ) → o ≡ some c → c ∈ ids) → write_at prev o (prev a) b ≡ p
    kept_first none m = e'
    kept_first (some c) m = ground (arith, m c refl, e')

-- `if (prev) … else head = next`
pub first-without :
    (next prev : ℕ → Option ℕ) (a : ℕ) (ids : List ℕ)
    → a ∈ ids
    → Forwards next ids
    → Backwards prev none ids
    → (if is_some (prev a) then first ids else next a) ≡ first (without a ids)
first-without next prev a [] h f g = absurd (ground arith)
first-without next prev a (b ∷ ids) h (e, f) (e', g) = elim (Bool-cases (a == b)) [
  | inl t ↦ let q : prev a ≡ none = ground (arith, e') in simp (q, t) (ground (arith, e))
  | inr n ↦ elim (prev_inside prev (some b) a ids (ground arith) g) [
    | inl here ↦ simp (here, n) refl
    | inr (c, there, m) ↦ simp (there, n) refl
  ]
]

last_past :
    (p : Option ℕ) (b : ℕ) (ids : List ℕ)
    → (if is_some (first ids) then last_from (some b) ids else p) ≡ last_from p ids
last_past p b [] = refl
last_past p b (c ∷ ids) = refl

-- `if (next) … else tail = prev`
pub last_from-without :
    (next prev : ℕ → Option ℕ) (p : Option ℕ) (a : ℕ) (ids : List ℕ)
    → a ∈ ids
    → Forwards next ids
    → Backwards prev p ids
    → (if is_some (next a) then last_from p ids else prev a) ≡ last_from p (without a ids)
last_from-without next prev p a [] h f g = absurd (ground arith)
last_from-without next prev p a (b ∷ ids) h (e, f) (e', g) = elim (Bool-cases (a == b)) [
  | inl t ↦
      let q : prev a ≡ p = ground (arith, e') in
      let n : next a ≡ first ids = ground (arith, e) in simp (q, n, t) (last_past p b ids)
  | inr n ↦ simp n (last_from-without next prev (some b) a ids (ground arith) f g)
]
