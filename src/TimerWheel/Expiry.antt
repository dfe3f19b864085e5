-- ===== src/TimerWheel/Expiry.antt =====
-- The loop of a tick over the entries of a slot.
use brass_runtime.Base.{
  ℕ, Bool, true, false, List, [], ◌∷◌, ◌≡◌, ◌⊎◌, inl, inr, refl, Bool-cases, ap, sym, either_branch,
}
use brass_runtime.TimerWheel.{Entry, is_due, left_over, due, thrown, pushed}

abbrev pub Among : {A : Type 0} → A → List A → Type 0
Among a [] = ⊥
Among a (x ∷ xs) = (x ≡ a) ⊎ Among a xs

later-Among : (x : ℕ) (xs fired : List ℕ) → Among x fired → Among x (pushed xs fired)
later-Among x [] fired m = m
later-Among x (y ∷ xs) fired m = later-Among x xs (y ∷ fired) (inr m)

pub pushed-Among : (x : ℕ) (xs fired : List ℕ) → Among x xs → Among x (pushed xs fired)
pushed-Among x [] fired m = elim m [ ]
pushed-Among x (y ∷ xs) fired (inl q) = later-Among x xs (y ∷ fired) (inl q)
pushed-Among x (y ∷ xs) fired (inr m) = pushed-Among x xs (y ∷ fired) m

pub pushed-from :
    (x : ℕ) (xs fired : List ℕ) → Among x (pushed xs fired) → Among x xs ⊎ Among x fired
pushed-from x [] fired m = inr m
pushed-from x (y ∷ xs) fired m = elim (pushed-from x xs (y ∷ fired) m) [
  | inl called ↦ inl (inr called)
  | inr (inl q) ↦ inl (inl q)
  | inr (inr before) ↦ inr before
]

pub contrary : (a b : Bool) → a ≡ b → a ≡ true → b ≡ false → ⊥
contrary a b p t f = cc

module _ (throws : ℕ → Bool) where
  pub left_over-Among :
      (now : ℕ) (e : Entry) (es : List Entry)
      → is_due now e ≡ false
      → Among e es
      → Among e (left_over throws now es)
  left_over-Among now e [] f m = elim m [ ]
  left_over-Among now e (x ∷ es) f (inl q) =
      either_branch (Among e) (is_due now x)
        (λ t. absurd (contrary (is_due now x) (is_due now e) (ap (is_due now) q) t f)) (λ _. inl q)
  left_over-Among now e (x ∷ es) f (inr m) =
      either_branch (Among e) (is_due now x)
        (λ _. either_branch (Among e) (throws x.id) (λ _. m) (λ _. left_over-Among now e es f m))
        (λ _. inr (left_over-Among now e es f m))

  pub left_over-from :
      (now : ℕ) (e : Entry) (es : List Entry) → Among e (left_over throws now es) → Among e es
  left_over-from now e [] m = m
  left_over-from now e (x ∷ es) m = elim (Bool-cases (is_due now x)) [
    | inl t ↦ elim (Bool-cases (throws x.id)) [
      | inl threw ↦ inr (simp (t, threw) at m)
      | inr fine ↦ inr (left_over-from now e es (simp (t, fine) at m))
    ]
    | inr f ↦ elim (the_case e x (left_over throws now es) (simp f at m)) [
      | inl q ↦ inl q
      | inr n ↦ inr (left_over-from now e es n)
    ]
  ]
    where
      the_case : (e x : Entry) (xs : List Entry) → (x ≡ e) ⊎ Among e xs → (x ≡ e) ⊎ Among e xs
      the_case e x xs m = m

  pub left_over-gone :
      (now : ℕ) (e : Entry) (es : List Entry)
      → is_due now e ≡ true
      → thrown throws now es ≡ false
      → ¬ Among e (left_over throws now es)
  left_over-gone now e [] d h m = m
  left_over-gone now e (x ∷ es) d h m = elim (Bool-cases (is_due now x)) [
    | inl t ↦ elim (Bool-cases (throws x.id)) [
      | inl threw ↦ contrary true false (simp (t, threw) at h) refl refl
      | inr fine ↦ left_over-gone now e es d (simp (t, fine) at h) (simp (t, fine) at m)
    ]
    | inr f ↦ elim (simp f at m) [
      | inl q ↦ contrary (is_due now e) (is_due now x) (sym (ap (is_due now) q)) d f
      | inr n ↦ left_over-gone now e es d (simp f at h) n
    ]
  ]

  pub due-Among :
      (now : ℕ) (e : Entry) (es : List Entry)
      → is_due now e ≡ true
      → thrown throws now es ≡ false
      → Among e es
      → Among e.id (due throws now es)
  due-Among now e [] t h m = elim m [ ]
  due-Among now e (x ∷ es) t h (inl q) =
      either_branch (Among e.id) (is_due now x) (λ _. inl (ap (λ (y : Entry). y.id) q))
        (λ f. absurd (contrary (is_due now e) (is_due now x) (sym (ap (is_due now) q)) t f))
  due-Among now e (x ∷ es) t h (inr m) = elim (Bool-cases (is_due now x)) [
    | inl d ↦ elim (Bool-cases (throws x.id)) [
      | inl threw ↦ absurd (contrary true false (simp (d, threw) at h) refl refl)
      | inr fine ↦ simp (d, fine) (inr (due-Among now e es t (simp (d, fine) at h) m))
    ]
    | inr f ↦ simp f (due-Among now e es t (simp f at h) m)
  ]

  -- A callback that is called is that of an entry of the list whose deadline is over.
  pub due-from :
      (now id : ℕ) (es : List Entry)
      → Among id (due throws now es)
      → (x : Entry) × Among x es × (x.id ≡ id) × (is_due now x ≡ true)
  due-from now id [] m = elim m [ ]
  due-from now id (x ∷ es) m = elim (Bool-cases (is_due now x)) [
    | inl d ↦ elim (Bool-cases (throws x.id)) [
      | inl threw ↦ elim (simp (d, threw) at m) [
        | inl q ↦ (x, inl refl, q, d)
        | inr none_more ↦ absurd none_more
      ]
      | inr fine ↦ elim (simp (d, fine) at m) [
        | inl q ↦ (x, inl refl, q, d)
        | inr n ↦ deeper (due-from now id es n)
      ]
    ]
    | inr f ↦ deeper (due-from now id es (simp f at m))
  ]
    where
      deeper :
          (x : Entry) × Among x es × (x.id ≡ id) × (is_due now x ≡ true)
          → (y : Entry) × Among y (x ∷ es) × (y.id ≡ id) × (is_due now y ≡ true)
      deeper (y, n, q, d) = (y, inr n, q, d)

  -- If the loop reports a throw, a callback of the list that was due throws.
  pub thrown-from :
      (now : ℕ) (es : List Entry)
      → thrown throws now es ≡ true
      → (x : Entry) × Among x es × (is_due now x ≡ true) × (throws x.id ≡ true)
  thrown-from now [] h = absurd (contrary true false (sym h) refl refl)
  thrown-from now (x ∷ es) h = elim (Bool-cases (is_due now x)) [
    | inl d ↦ elim (Bool-cases (throws x.id)) [
      | inl threw ↦ (x, inl refl, d, threw)
      | inr fine ↦ deeper (thrown-from now es (simp (d, fine) at h))
    ]
    | inr f ↦ deeper (thrown-from now es (simp f at h))
  ]
    where
      deeper :
          (y : Entry) × Among y es × (is_due now y ≡ true) × (throws y.id ≡ true)
          → (y : Entry) × Among y (x ∷ es) × (is_due now y ≡ true) × (throws y.id ≡ true)
      deeper (y, n, d, t) = (y, inr n, d, t)
