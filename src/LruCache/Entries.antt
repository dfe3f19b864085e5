-- ===== src/LruCache/Entries.antt =====
-- The entries of a list of nodes, and how what the specification does to them shows on the nodes.
use brass_runtime.Base.{
  ℕ, suc, true, false, List, [], ◌∷◌, Option, none, some, ◌==◌, ◌≡◌, length, arith, refl,
  Bool-cases, inl, inr, ap, ◌∙◌,
}
use mathlib.Core.Option
use brass_runtime.Links.{has, without, ◌∈◌, ◌∉◌, Distinct, last_from}
use brass_runtime.Links.Ends.{last_inside}
use brass_runtime.LruCache.{Entry}
use brass_runtime.LruCache.Keys.{holder, holder-inside}
use brass_runtime.LruCache.Holds.{key_of}
use brass_runtime.LruCache.Spec.{find, drop, drop_last}

pub apart : (a b : ℕ) (ids : List ℕ) → a ∈ ids → b ∉ ids → (a == b) ≡ false
apart a b ids m out = elim (Bool-cases (a == b)) [
  | inl t ↦ let s : a ≡ b = ground arith in absurd (ground (arith, m, out, ap (λ x. has x ids) s))
  | inr n ↦ n
]

pub last_exists : (p : Option ℕ) (b : ℕ) (ids : List ℕ) → (a : ℕ) × (last_from p (b ∷ ids) ≡ some a)
last_exists p b [] = (b, refl)
last_exists p b (c ∷ ids) = last_exists (some b) c ids

module _ {V : Type 0} where
  abbrev pub entries : (ℕ → Entry V) → List ℕ → List (Entry V)
  entries entry [] = []
  entries entry (a ∷ ids) = entry a ∷ entries entry ids

  pub length-entries :
      (entry : ℕ → Entry V) (ids : List ℕ) → length (entries entry ids) ≡ length ids
  length-entries entry [] = refl
  length-entries entry (a ∷ ids) = ap suc (length-entries entry ids)

  pub find-entries :
      (entry : ℕ → Entry V) (k : ℕ) (ids : List ℕ)
      → find k (entries entry ids) ≡ Option.map entry (holder (key_of entry) k ids)
  find-entries entry k [] = refl
  find-entries entry k (a ∷ ids) = elim (Bool-cases ((entry a).key == k)) [
    | inl t ↦ simp t refl
    | inr n ↦ simp n (find-entries entry k ids)
  ]

  pub drop-absent :
      (entry : ℕ → Entry V) (k : ℕ) (ids : List ℕ)
      → holder (key_of entry) k ids ≡ none
      → drop k (entries entry ids) ≡ entries entry ids
  drop-absent entry k [] e = refl
  drop-absent entry k (a ∷ ids) e = elim (Bool-cases ((entry a).key == k)) [
    | inl t ↦ absurd (ground (arith, e))
    | inr n ↦ simp n (ap (◌∷◌ (entry a)) (drop-absent entry k ids (ground (arith, e))))
  ]

  pub drop-entries :
      (entry : ℕ → Entry V) (k a : ℕ) (ids : List ℕ)
      → Distinct ids
      → holder (key_of entry) k ids ≡ some a
      → drop k (entries entry ids) ≡ entries entry (without a ids)
  drop-entries entry k a [] d e = refl
  drop-entries entry k a (b ∷ ids) (out, d) e = elim (Bool-cases ((entry b).key == k)) [
    | inl t ↦ let s : (a == b) ≡ true = ground (arith, e) in simp (t, s) refl
    | inr n ↦
        let kept : holder (key_of entry) k ids ≡ some a = ground (arith, e) in
        let other = apart a b ids (holder-inside (key_of entry) k a ids kept).0 out in
        simp (n, other) (ap (◌∷◌ (entry b)) (drop-entries entry k a ids d kept))
  ]

  pub drop_last-entries :
      (entry : ℕ → Entry V) (a : ℕ) (p : Option ℕ) (b : ℕ) (ids : List ℕ)
      → Distinct (b ∷ ids)
      → last_from p (b ∷ ids) ≡ some a
      → drop_last (entries entry (b ∷ ids)) ≡ entries entry (without a (b ∷ ids))
  drop_last-entries entry a p b [] d e = let s : (a == b) ≡ true = ground (arith, e) in simp s refl
  drop_last-entries entry a p b (c ∷ ids) (out, d) e =
      let other = apart a b (c ∷ ids) (last_inside c a ids e) out in
      simp other (ap (◌∷◌ (entry b)) (drop_last-entries entry a (some b) c ids d e))

  pub agree-entries :
      (f g : ℕ → Entry V) (ids : List ℕ)
      → ((a : ℕ) → a ∈ ids → f a ≡ g a)
      → entries f ids ≡ entries g ids
  agree-entries f g [] h = refl
  agree-entries f g (a ∷ ids) h =
      ap (λ e. e ∷ entries f ids) (h a (ground arith))
      ∙ ap (◌∷◌ (g a)) (agree-entries f g ids (λ b m. h b (ground (arith, m))))
