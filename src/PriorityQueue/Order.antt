-- ===== src/PriorityQueue/Order.antt =====
-- The order of entries, and what the order of a heap says of its top.
use brass_runtime.Base.{ℕ, zero, suc, ◌/◌, ◌<◌, ◌≤◌, true, false, ◌≡◌, arith, ◌==◌, ◌∙◌, sym, subst}
use brass_runtime.PriorityQueue.{Entry, precedes, swap}
use brass_runtime.Links.{write, write_self, write_ne}

module _ {T : Type 0} where
  -- `b` does not come before `a`.
  abbrev pub Le : Entry T → Entry T → Type 0
  Le a b = precedes b a ≡ false

  pub Le-refl : (a : Entry T) → Le a a
  Le-refl a = ground arith

  pub Le-trans : (a b c : Entry T) → Le a b → Le b c → Le a c
  Le-trans a b c h g = ground (arith, h, g)

  pub Le-precedes : (a b : Entry T) → precedes a b ≡ true → Le a b
  Le-precedes a b h = ground (arith, h)

  -- The array up to a length is a heap: no entry comes before its parent.
  abbrev pub IsHeap : (ℕ → Entry T) → ℕ → Type 0
  IsHeap h n = (j : ℕ) → suc j < n → Le (h (j / 2)) (h (suc j))

  top_below :
      (fuel : ℕ) (h : ℕ → Entry T) (n i : ℕ) → i ≤ fuel → IsHeap h n → i < n → Le (h 0) (h i)
  top_below fuel h n zero f g l = Le-refl (h 0)
  top_below zero h n (suc j) f g l = absurd (omega arith)
  top_below (suc fuel) h n (suc j) f g l =
      Le-trans (h 0) (h (j / 2)) (h (suc j))
        (top_below fuel h n (j / 2) (omega arith) g (omega arith)) (g j l)

  -- The top comes first.
  pub top-Le : (h : ℕ → Entry T) (n i : ℕ) → IsHeap h n → i < n → Le (h 0) (h i)
  top-Le h n i g l = top_below i h n i (omega arith) g l

  -- What two entries hold after they were swapped.
  pub swap_second : (h : ℕ → Entry T) (i j : ℕ) → swap h i j j ≡ h i
  swap_second h i j = write_self (write h i (h j)) j (h i)

  pub swap_first : (h : ℕ → Entry T) (i j : ℕ) → (i == j) ≡ false → swap h i j i ≡ h j
  swap_first h i j n = write_ne (write h i (h j)) j i (h i) n ∙ write_self h i (h j)

  pub swap_other :
      (h : ℕ → Entry T) (i j x : ℕ) → (x == i) ≡ false → (x == j) ≡ false → swap h i j x ≡ h x
  swap_other h i j x n m = write_ne (write h i (h j)) j x (h i) m ∙ write_ne h i x (h j) n

  pub Le-by : (a b c d : Entry T) → a ≡ c → b ≡ d → Le c d → Le a b
  Le-by a b c d e f h = subst (λ x. Le x b) (sym e) (subst (Le c) (sym f) h)

  -- The order of the heap, but for an index and its parent.
  abbrev pub Except : (ℕ → Entry T) → ℕ → ℕ → Type 0
  Except h n k = (j : ℕ) → suc j < n → (suc j == k) ≡ false → Le (h (j / 2)) (h (suc j))

  -- The order of the heap, but for an index and its children.
  abbrev pub ExceptBelow : (ℕ → Entry T) → ℕ → ℕ → Type 0
  ExceptBelow h n k = (j : ℕ) → suc j < n → (j / 2 == k) ≡ false → Le (h (j / 2)) (h (suc j))

  -- The children of an index do not come before its parent.
  abbrev pub Across : (ℕ → Entry T) → ℕ → ℕ → Type 0
  Across h n k = (i j : ℕ) → k ≡ suc i → suc j < n → j / 2 ≡ k → Le (h (i / 2)) (h (suc j))
