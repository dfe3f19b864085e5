-- ===== src/LinkedQueue/Models.antt =====
-- When the pointers of a LinkedQueue stand for the list of its linked nodes: a node that is taken
-- out, and one that is put in.
use brass_runtime.Base.{
  ℕ, suc, ◌<◌, ◌||◌, Bool, true, false, not, List, [], ◌∷◌, ◌++◌, some, ◌==◌, ◌≡◌, is_some, length,
  arith, refl, Bool-cases, inl, inr, length-append, sym, ap, subst,
}
use brass_runtime.Links.{StandsFor, write, has, without, ◌∈◌, ◌∉◌, unlink, Distinct, add_to_tail}
use brass_runtime.Links.Unlink.{without-Distinct}
use brass_runtime.Links.Ends.{unlink-StandsFor, add_to_tail-StandsFor}
use brass_runtime.LinkedQueue.{LinkedQueue, empty, linked, is_removed}
use brass_runtime.LinkedQueue
use brass_runtime.LinkedQueue.Unlink.{length-unlink}
use brass_runtime.LinkedQueue.Pointers.{NodeQueue, unlink_node, push}

has-without_ne : (b a : ℕ) (ids : List ℕ) → (b == a) ≡ false → has b (without a ids) ≡ has b ids
has-without_ne b a [] n = refl
has-without_ne b a (c ∷ ids) n = ground (arith, has-without_ne b a ids n)

has-append_last : (b a : ℕ) (ids : List ℕ) → has b (ids ++ (a ∷ [])) ≡ (has b ids || (b == a))
has-append_last b a [] = ground arith
has-append_last b a (c ∷ ids) = ground (arith, has-append_last b a ids)

-- The flag `removed` after a node was taken out, and after one was put in.
unlinked_flag :
    (removed : ℕ → Bool) (a b : ℕ) (ids : List ℕ)
    → Distinct ids
    → removed b ≡ not (has b ids)
    → write removed a true b ≡ not (has b (without a ids))
unlinked_flag removed a b ids d e = elim (Bool-cases (b == a)) [
  | inl t ↦ ground (arith, (without-Distinct a ids d).1)
  | inr n ↦ ground (arith, e, has-without_ne b a ids n)
]

pushed_flag :
    (removed : ℕ → Bool) (a b : ℕ) (ids : List ℕ)
    → b < suc a
    → (b < a → removed b ≡ not (has b ids))
    → write removed a false b ≡ not (has b (ids ++ (a ∷ [])))
pushed_flag removed a b ids l e = elim (Bool-cases (b == a)) [
  | inl t ↦ ground (arith, has-append_last b a ids)
  | inr n ↦ ground (arith, e (ground arith), has-append_last b a ids)
]

module _ {V : Type 0} where
  abbrev pub addresses : List (ℕ × V) → List ℕ
  addresses [] = []
  addresses ((a, v) ∷ nodes) = a ∷ addresses nodes

  abbrev pub Values : (ℕ → V) → List (ℕ × V) → Type 0
  Values value [] = Unit
  Values value ((a, v) ∷ nodes) = (value a ≡ v) × Values value nodes

  abbrev pub Below : ℕ → List (ℕ × V) → Type 0
  Below made [] = Unit
  Below made ((a, v) ∷ nodes) = (a < made) × Below made nodes

  pub record Models (q : NodeQueue V) (s : LinkedQueue V) : Type 0 where
    pub chain : StandsFor q.links (addresses s.nodes)
    pub values : Values q.value s.nodes
    pub flags : (a : ℕ) → a < s.made → q.removed a ≡ not (has a (addresses s.nodes))
    pub counted : q.len ≡ length s.nodes
    pub same_made : q.made ≡ s.made
    pub below : Below s.made s.nodes

  pub has-addresses :
      (a : ℕ) (nodes : List (ℕ × V)) → has a (addresses nodes) ≡ is_some (linked a nodes)
  has-addresses a [] = refl
  has-addresses a ((b, v) ∷ nodes) = ground (arith, has-addresses a nodes)

  without-addresses :
      (a : ℕ) (nodes : List (ℕ × V))
      → without a (addresses nodes) ≡ addresses (LinkedQueue.unlink a nodes)
  without-addresses a [] = refl
  without-addresses a ((b, v) ∷ nodes) = elim (Bool-cases (a == b)) [
    | inl t ↦ simp t refl
    | inr n ↦ simp n (ap (◌∷◌ b) (without-addresses a nodes))
  ]

  unlink-Values :
      (value : ℕ → V) (a : ℕ) (nodes : List (ℕ × V))
      → Values value nodes
      → Values value (LinkedQueue.unlink a nodes)
  unlink-Values value a [] h = tt
  unlink-Values value a ((b, v) ∷ nodes) (e, h) = elim (Bool-cases (a == b)) [
    | inl t ↦ simp t h
    | inr n ↦ simp n (e, unlink-Values value a nodes h)
  ]

  unlink-Below :
      (m : ℕ) (a : ℕ) (nodes : List (ℕ × V)) → Below m nodes → Below m (LinkedQueue.unlink a nodes)
  unlink-Below m a [] h = tt
  unlink-Below m a ((b, v) ∷ nodes) (e, h) = elim (Bool-cases (a == b)) [
    | inl t ↦ simp t h
    | inr n ↦ simp n (e, unlink-Below m a nodes h)
  ]

  -- A linked node is taken out.
  pub unlink_node-Models :
      (a : ℕ) (v : V) (q : NodeQueue V) (s : LinkedQueue V)
      → linked a s.nodes ≡ some v
      → Models q s
      → Models (unlink_node a q) (LinkedQueue.remove a s)
  unfolding unlink_node
  unlink_node-Models a v q s e m =
      let inside : a ∈ addresses s.nodes = ground (arith, has-addresses a s.nodes, e) in
      let same = without-addresses a s.nodes in
      let gone = (without-Distinct a (addresses s.nodes) m.chain.distinct).1 in
      record {
        chain =
            subst (StandsFor (unlink a q.links)) same
              (unlink-StandsFor a (addresses s.nodes) q.links inside m.chain);
        values = unlink-Values q.value a s.nodes m.values;
        flags = λ b h.
            subst (λ ids. write q.removed a true b ≡ not (has b ids)) same
              (unlinked_flag q.removed a b (addresses s.nodes) m.chain.distinct (m.flags b h));
        counted = omega (arith, m.counted, length-unlink a s.nodes v e);
        same_made = m.same_made;
        below = unlink-Below s.made a s.nodes m.below;
      }

  addresses-append :
      (xs : List (ℕ × V)) (a : ℕ) (v : V)
      → addresses (xs ++ ((a, v) ∷ [])) ≡ addresses xs ++ (a ∷ [])
  addresses-append [] a v = refl
  addresses-append ((b, w) ∷ xs) a v = ap (◌∷◌ b) (addresses-append xs a v)

  Below-out : (m : ℕ) (nodes : List (ℕ × V)) → Below m nodes → m ∉ addresses nodes
  Below-out m [] h = refl
  Below-out m ((a, v) ∷ nodes) (l, h) = ground (arith, Below-out m nodes h)

  push-Values :
      (value : ℕ → V) (a : ℕ) (v : V) (nodes : List (ℕ × V))
      → a ∉ addresses nodes
      → Values value nodes
      → Values (write value a v) (nodes ++ ((a, v) ∷ []))
  push-Values value a v [] out h = (ground arith, tt)
  push-Values value a v ((b, w) ∷ nodes) out (e, h) =
      (ground (arith, e), push-Values value a v nodes (ground arith) h)

  push-Below :
      (m : ℕ) (v : V) (nodes : List (ℕ × V))
      → Below m nodes
      → Below (suc m) (nodes ++ ((m, v) ∷ []))
  push-Below m v [] h = (omega arith, tt)
  push-Below m v ((b, w) ∷ nodes) (e, h) = (omega arith, push-Below m v nodes h)

  pub push-Models :
      (v : V) (q : NodeQueue V) (s : LinkedQueue V)
      → Models q s
      → Models (push v q).1 (LinkedQueue.push v s).1
  unfolding push
  push-Models v q s m =
      let out = Below-out s.made s.nodes m.below in
      let same = addresses-append s.nodes s.made v in
      let chain = add_to_tail-StandsFor s.made (addresses s.nodes) q.links out m.chain in
      rw m.same_made (record {
        chain = subst (StandsFor (add_to_tail s.made q.links)) (sym same) chain;
        values = push-Values q.value s.made v s.nodes out m.values;
        flags = λ b h.
            subst (λ ids. write q.removed s.made false b ≡ not (has b ids)) (sym same)
              (pushed_flag q.removed s.made b (addresses s.nodes) h (m.flags b));
        counted = omega (arith, m.counted, length-append s.nodes ((s.made, v) ∷ []));
        same_made = refl;
        below = push-Below s.made v s.nodes m.below;
      })
