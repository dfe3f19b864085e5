-- ===== src/Semaphore/Cuts.antt =====
-- The line of a semaphore cut at its places.
use brass_runtime.Base.{
  ℕ, zero, suc, ◌+◌, List, [], ◌∷◌, ◌++◌, length, length-append, ◌≡◌, ◌⊎◌, inl, inr, refl, sym, ap,
  ◌∙◌, arith, subst,
}
use brass_runtime.Semaphore.{Semaphore}
use brass_runtime.Semaphore.Line.{Line, first, beyond, callbacks, Shows}

-- The line cut at its places, in the form in which the operations change it.
pub record Cut (l : Line) (s : Semaphore) : Type 0 where
  pub front : List (ℕ × ℕ)
  pub whole : l.line ≡ front ++ s.waiters.nodes
  pub served : callbacks front ≡ s.granted
  pub room : length front + s.available ≡ l.places
  pub busy : (s.waiters.nodes ≡ []) ⊎ (s.available ≡ 0)
  pub tickets : s.waiters.made ≡ l.tickets
  pub called : s.permits ≡ l.called

first-nil : (m : ℕ) → (first {A = ℕ × ℕ} m [] ≡ []) × (beyond {A = ℕ × ℕ} m [] ≡ [])
first-nil zero = (refl, refl)
first-nil (suc m) = (refl, refl)

first-front :
    (front rest : List (ℕ × ℕ)) (n m : ℕ)
    → m ≡ length front + n
    → (rest ≡ []) ⊎ (n ≡ 0)
    → (first m (front ++ rest) ≡ front) × (beyond m (front ++ rest) ≡ rest)
first-front [] rest n m e (inl empty) = rw empty (first-nil m)
first-front [] rest n zero e (inr none_free) = (refl, refl)
first-front [] rest n (suc m) e (inr none_free) = absurd (omega arith)
first-front (x ∷ front) rest n zero e b = absurd (omega arith)
first-front (x ∷ front) rest n (suc m) e b =
    let (p, q) = first-front front rest n m (omega arith) b in (ap (◌∷◌ x) p, q)

pub callbacks-append :
    (xs : List (ℕ × ℕ)) (node cb : ℕ)
    → callbacks (xs ++ ((node, cb) ∷ [])) ≡ callbacks xs ++ (cb ∷ [])
callbacks-append [] node cb = refl
callbacks-append ((n, c) ∷ xs) node cb = ap (◌∷◌ c) (callbacks-append xs node cb)

pub length-line :
    (l : Line) (s : Semaphore) (c : Cut l s)
    → length l.line ≡ length c.front + length s.waiters.nodes
length-line l s c = ap length c.whole ∙ length-append c.front s.waiters.nodes

pub Cut-split :
    (l : Line) (s : Semaphore) (c : Cut l s)
    → (first l.places l.line ≡ c.front) × (beyond l.places l.line ≡ s.waiters.nodes)
Cut-split l s c =
    subst
      (λ (xs : List (ℕ × ℕ)).
        (first l.places xs ≡ c.front) × (beyond l.places xs ≡ s.waiters.nodes))
      (sym c.whole) (first-front c.front s.waiters.nodes s.available l.places (sym c.room) c.busy)

pub Cut-Shows : (l : Line) (s : Semaphore) → Cut l s → Shows l s
Cut-Shows l s c =
    let (p, q) = Cut-split l s c in
    record {
      granted = sym c.served ∙ ap callbacks (sym p);
      waiting = sym q;
      available = elim c.busy [
        | inl e ↦ omega (arith, c.room, length-line l s c, ap (length {A = ℕ × ℕ}) e)
        | inr e ↦ omega (arith, c.room, length-line l s c, e)
      ];
      tickets = c.tickets;
      called = c.called;
    }
