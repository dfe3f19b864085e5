-- ===== src/LinkedQueue/Unlink.antt =====
-- What `remove` does to the number of nodes.
use brass_runtime.Base.{
  ℕ, suc, ◌≤◌, arith, List, [], ◌∷◌, none, some, length, ◌==◌, ◌≡◌, ◌≢◌, refl, ap, inl, inr,
  Bool-cases,
}
use brass_runtime.LinkedQueue.{linked, unlink}

module _ {ℓ} {V : Type ℓ} where
  -- A node that is still linked is taken out, once.
  pub length-unlink :
      (node : ℕ) (nodes : List (ℕ × V)) (v : V)
      → linked node nodes ≡ some v
      → length nodes ≡ suc (length (unlink node nodes))
  length-unlink node [] v e = cc
  length-unlink node ((other, x) ∷ rest) v e = elim (Bool-cases (node == other)) [
    | inl same ↦ simp same refl
    | inr apart ↦ simp apart (ap suc (length-unlink node rest v (simp apart at e)))
  ]

  -- A removed node is not there to be taken out.
  pub unlink-removed :
      (node : ℕ) (nodes : List (ℕ × V)) → linked node nodes ≡ none → unlink node nodes ≡ nodes
  unlink-removed node [] e = refl
  unlink-removed node ((other, x) ∷ rest) e = elim (Bool-cases (node == other)) [
    | inl same ↦ absurd (by_value (simp same at e))
    | inr apart ↦ simp apart (ap (◌∷◌ (other, x)) (unlink-removed node rest (simp apart at e)))
  ]
    where
      by_value : some x ≢ none
      by_value p = cc

  pub length-unlink_le :
      (node : ℕ) (nodes : List (ℕ × V)) → length (unlink node nodes) ≤ length nodes
  length-unlink_le node [] = omega arith
  length-unlink_le node ((other, x) ∷ rest) = ground (arith, length-unlink_le node rest)
