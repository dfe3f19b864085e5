-- ===== src/LruCache/Holds.antt =====
-- The nodes that a cache holds, from the one used last to the one used least recently, and what
-- each change of the pointers and of the map does to them.
use brass_runtime.Base.{
  ℕ, suc, ◌<◌, true, false, List, [], ◌∷◌, Option, none, some, ◌==◌, ◌≡◌, length, arith, Bool-cases,
  inl, inr, ap, sym, ◌∙◌, either_branch, subst,
}
use brass_runtime.Links.{
  Links, StandsFor, write, has, without, ◌∈◌, ◌∉◌, remove_node, add_to_head, first, write_self,
  write_ne,
}
use brass_runtime.Links.Unlink.{without-Distinct}
use brass_runtime.Links.Ends.{unlink-StandsFor, remove_node-unlink, add_to_head-StandsFor}
use brass_runtime.LruCache.{Entry, LruCache, map_set, drop_node, move_to_head, is_head}
use brass_runtime.LruCache.Keys.{
  holder, UniqueKeys, holder-own, holder-without_ne, holder-without, without-UniqueKeys,
  length-without, holder-agree, agree-UniqueKeys,
}

removed-StandsFor :
    (a : ℕ) (ids : List ℕ) (l : Links)
    → a ∈ ids
    → StandsFor l ids
    → StandsFor (remove_node a l) (without a ids)
removed-StandsFor a ids l h s =
    subst (λ x. StandsFor x (without a ids)) (sym (remove_node-unlink a ids l h s))
      (unlink-StandsFor a ids l h s)

inside_without : (b a : ℕ) (ids : List ℕ) → b ∈ without a ids → b ∈ ids
inside_without b a [] h = h
inside_without b a (c ∷ ids) h = ground (arith, h, inside_without b a ids)

holder-moved :
    (key : ℕ → ℕ) (j a : ℕ) (ids : List ℕ)
    → a ∈ ids
    → UniqueKeys key ids
    → holder key j (a ∷ without a ids) ≡ holder key j ids
holder-moved key j a ids h u = elim (Bool-cases (key a == j)) [
  | inl t ↦
      let q : j ≡ key a = ground arith in
      simp t (sym (ap (λ x. holder key x ids) q ∙ holder-own key a ids h u))
  | inr n ↦ simp n (holder-without_ne key j a ids n)
]

at_front : (a : ℕ) (ids : List ℕ) → is_head (first ids) a ≡ true → a ∷ without a ids ≡ ids
at_front a [] h = absurd (ground (arith, h))
at_front a (b ∷ ids) h =
    let t : (a == b) ≡ true = ground arith in
    let s : a ≡ b = ground arith in simp t (ap (λ x. x ∷ ids) s)

-- The map finds a new holder of a key as the list does.
looked_up :
    (key : ℕ → ℕ) (lookup : ℕ → Option ℕ) (j k a : ℕ) (ids : List ℕ)
    → key a ≡ j
    → lookup k ≡ holder key k ids
    → write lookup j (some a) k ≡ holder key k (a ∷ ids)
looked_up key lookup j k a ids own e = elim (Bool-cases (k == j)) [
  | inl t ↦ ground (arith, own)
  | inr n ↦ ground (arith, own, e)
]

module _ {V : Type 0} where
  abbrev pub key_of : (ℕ → Entry V) → ℕ → ℕ
  key_of entry a = (entry a).key

  pub record Holds (c : LruCache V) (ids : List ℕ) : Type 0 where
    pub chain : StandsFor c.links ids
    pub looked : (k : ℕ) → c.keys.lookup k ≡ holder (key_of c.entry) k ids
    pub unique : UniqueKeys (key_of c.entry) ids
    pub counted : c.keys.size ≡ length ids
    pub below : (a : ℕ) → a ∈ ids → a < c.made

  pub drop_node-Holds :
      (a k : ℕ) (c : LruCache V) (ids : List ℕ)
      → a ∈ ids
      → key_of c.entry a ≡ k
      → Holds c ids
      → Holds (drop_node a k c) (without a ids)
  unfolding drop_node
  drop_node-Holds a k c ids h s m = record {
    chain = removed-StandsFor a ids c.links h m.chain;
    looked = λ j. elim (Bool-cases (j == k)) [
      | inl t ↦
          let q : j ≡ key_of c.entry a = ground (arith, s) in
          ground (
            arith,
            ap (λ x. holder (key_of c.entry) x (without a ids)) q,
            holder-without (key_of c.entry) a ids h m.unique,
          )
      | inr n ↦
          ground (arith, m.looked j, holder-without_ne (key_of c.entry) j a ids (ground (arith, s)))
    ];
    unique = without-UniqueKeys (key_of c.entry) a ids m.unique;
    counted =
        let found : c.keys.lookup k ≡ some a =
          m.looked k
          ∙ (ap (λ x. holder (key_of c.entry) x ids) (sym s)
              ∙ holder-own (key_of c.entry) a ids h m.unique) in
        simp found (omega (arith, m.counted, length-without a ids h));
    below = λ b i. m.below b (inside_without b a ids i);
  }

  pub move_to_head-Holds :
      (a : ℕ) (c : LruCache V) (ids : List ℕ)
      → a ∈ ids
      → Holds c ids
      → Holds (move_to_head a c) (a ∷ without a ids)
  unfolding move_to_head
  move_to_head-Holds a c ids h m =
      either_branch (λ d. Holds d (a ∷ without a ids)) (is_head c.links.head a)
        (λ t.
          subst (Holds c)
            (sym (at_front a ids (subst (λ o. is_head o a ≡ true) m.chain.from_head t))) m)
        (λ n. record {
          chain =
              add_to_head-StandsFor a (without a ids) (remove_node a c.links)
                (without-Distinct a ids m.chain.distinct).1
                (removed-StandsFor a ids c.links h m.chain);
          looked = λ j. m.looked j ∙ sym (holder-moved (key_of c.entry) j a ids h m.unique);
          unique = (
            holder-without (key_of c.entry) a ids h m.unique,
            without-UniqueKeys (key_of c.entry) a ids m.unique,
          );
          counted = m.counted ∙ length-without a ids h;
          below = λ b i. elim (Bool-cases (b == a)) [
            | inl t ↦ ground (arith, m.below a h)
            | inr n ↦ m.below b (inside_without b a ids (ground (arith, i)))
          ];
        })

  -- Other values at the nodes, with the same keys.
  pub rewritten-Holds :
      (e : ℕ → Entry V) (c : LruCache V) (ids : List ℕ)
      → ((a : ℕ) → a ∈ ids → key_of e a ≡ key_of c.entry a)
      → Holds c ids
      → Holds (record c { entry = e }) ids
  rewritten-Holds e c ids h m = record {
    chain = m.chain;
    looked = λ k. m.looked k ∙ sym (holder-agree (key_of e) (key_of c.entry) k ids h);
    unique = agree-UniqueKeys (key_of e) (key_of c.entry) ids h m.unique;
    counted = m.counted;
    below = m.below;
  }

  -- A new node at the next address.
  abbrev pub with_new : Entry V → LruCache V → LruCache V
  with_new e c = record c {
    entry = write c.entry c.made e;
    made = suc c.made;
    keys = map_set e.key c.made c.keys;
    links = add_to_head c.made c.links;
  }

  pub not_made : (c : LruCache V) (ids : List ℕ) → Holds c ids → c.made ∉ ids
  not_made c ids m = elim (Bool-cases (has c.made ids)) [
    | inl t ↦ absurd (omega (arith, m.below c.made t))
    | inr n ↦ n
  ]

  key_of-write_self :
      (entry : ℕ → Entry V) (a : ℕ) (e : Entry V) → key_of (write entry a e) a ≡ e.key
  key_of-write_self entry a e = ap (λ x. x.key) (write_self entry a e)

  pub key_of-write_ne :
      (entry : ℕ → Entry V) (a b : ℕ) (e : Entry V)
      → (b == a) ≡ false
      → key_of (write entry a e) b ≡ key_of entry b
  key_of-write_ne entry a b e n = ap (λ x. x.key) (write_ne entry a b e n)

  pub with_new-Holds :
      (e : Entry V) (c : LruCache V) (ids : List ℕ)
      → c.keys.lookup e.key ≡ none
      → Holds c ids
      → Holds (with_new e c) (c.made ∷ ids)
  with_new-Holds e c ids absent m =
      let out = not_made c ids m in
      let key = key_of (write c.entry c.made e) in
      let own : key c.made ≡ e.key = key_of-write_self c.entry c.made e in
      let agree : (a : ℕ) → a ∈ ids → key_of (write c.entry c.made e) a ≡ key_of c.entry a =
        λ a i. key_of-write_ne c.entry c.made a e (ground (arith, m.below a)) in
      record {
        chain = add_to_head-StandsFor c.made ids c.links out m.chain;
        looked = λ k.
            looked_up key c.keys.lookup e.key k c.made ids own
              (m.looked k ∙ sym (holder-agree key (key_of c.entry) k ids agree));
        unique = (
          holder-agree key (key_of c.entry) (key c.made) ids agree
              ∙ (ap (λ k. holder (key_of c.entry) k ids) own ∙ (sym (m.looked e.key) ∙ absent)),
          agree-UniqueKeys key (key_of c.entry) ids agree m.unique,
        );
        counted = simp absent (ap suc m.counted);
        below = λ a i. ground (arith, m.below a);
      }
