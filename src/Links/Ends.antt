-- ===== src/Links/Ends.antt =====
-- A doubly linked list after a node was taken out, and after one was put at an end.
use brass_runtime.Base.{
  ℕ, true, false, List, [], ◌∷◌, ◌++◌, Option, none, some, ◌==◌, is_some, if◌then◌else◌, ◌≡◌, arith,
  refl, Bool-cases, inl, inr, ◌≢◌, sym, subst,
}
use brass_runtime.Links.{
  Links, StandsFor, write, write_at, ◌∈◌, ◌∉◌, last_from, without, Distinct, Forwards, Backwards,
  unlink, remove_node, add_to_head, add_to_tail, relink_prev, relink_next, clear_pointers,
}
use brass_runtime.Links.Unlink.{
  Forwards-without, Backwards-without, first-without, last_from-without, without-Distinct,
  Forwards-write, Backwards-write,
}

relinked :
    (a : ℕ) (p n : Option ℕ) (l : Links)
    → relink_next p n (relink_prev p n l) ≡ record {
      head = if is_some p then l.head else n;
      tail = if is_some n then l.tail else p;
      prev = write_at l.prev n p;
      next = write_at l.next p n;
    }
unfolding relink_next relink_prev
relinked a none none l = refl
relinked a none (some n) l = refl
relinked a (some p) none l = refl
relinked a (some p) (some n) l = refl

cleared-StandsFor :
    (a : ℕ) (ids : List ℕ) (l : Links)
    → a ∉ ids
    → StandsFor l ids
    → StandsFor (clear_pointers a l) ids
cleared-StandsFor a ids l out s = record {
  from_head = s.from_head;
  from_tail = s.from_tail;
  distinct = s.distinct;
  forwards = Forwards-write l.next a none ids out s.forwards;
  backwards = Backwards-write l.prev a none none ids out s.backwards;
}

pub unlink-StandsFor :
    (a : ℕ) (ids : List ℕ) (l : Links)
    → a ∈ ids
    → StandsFor l ids
    → StandsFor (unlink a l) (without a ids)
unfolding unlink
unlink-StandsFor a ids l h s =
    let (d, gone) = without-Distinct a ids s.distinct in
    cleared-StandsFor a (without a ids) _ gone (
      rw (relinked a (l.prev a) (l.next a) l) (record {
        from_head = simp s.from_head (first-without l.next l.prev a ids h s.forwards s.backwards);
        from_tail =
            simp s.from_tail (last_from-without l.next l.prev none a ids h s.forwards s.backwards);
        distinct = d;
        forwards = Forwards-without l.next l.prev none a ids h tt s.distinct s.forwards s.backwards;
        backwards = Backwards-without l.next l.prev none a ids h s.distinct s.forwards s.backwards;
      }))

prev_apart :
    (prev : ℕ → Option ℕ) (p : Option ℕ) (a : ℕ) (ids : List ℕ)
    → p ≢ some a
    → Distinct ids
    → a ∈ ids
    → Backwards prev p ids
    → prev a ≢ some a
prev_apart prev p a [] n d h g = absurd (ground arith)
prev_apart prev p a (b ∷ ids) n (out, d) h (e, g) = elim (Bool-cases (a == b)) [
  | inl t ↦ λ q. n (ground (arith, e, q))
  | inr apart ↦ prev_apart prev (some b) a ids (λ q. ground (arith, q)) d (ground arith) g
]

relink_prev-prev : (p n : Option ℕ) (l : Links) → (relink_prev p n l).prev ≡ l.prev
unfolding relink_prev
relink_prev-prev none n l = refl
relink_prev-prev (some p) n l = refl

relink_prev-next :
    (p n : Option ℕ) (a : ℕ) (l : Links) → p ≢ some a → (relink_prev p n l).next a ≡ l.next a
unfolding relink_prev
relink_prev-next none n a l h = refl
relink_prev-next (some p) n a l h = elim (Bool-cases (a == p)) [
  | inl t ↦ absurd (h (ground arith))
  | inr e ↦ simp e refl
]

-- The order of the reads makes no difference.
pub remove_node-unlink :
    (a : ℕ) (ids : List ℕ) (l : Links) → a ∈ ids → StandsFor l ids → remove_node a l ≡ unlink a l
unfolding remove_node unlink
remove_node-unlink a ids l h s =
    rw
      (
        relink_prev-prev (l.prev a) (l.next a) l,
        relink_prev-next (l.prev a) (l.next a) a l
            (prev_apart l.prev none a ids (λ e. cc) s.distinct h s.backwards),
      )
      refl

last_some : (b : ℕ) (ids : List ℕ) → is_some (last_from (some b) ids) ≡ true
last_some b [] = refl
last_some b (c ∷ ids) = last_some c ids

pub add_to_head-StandsFor :
    (a : ℕ) (ids : List ℕ) (l : Links)
    → a ∉ ids
    → StandsFor l ids
    → StandsFor (add_to_head a l) (a ∷ ids)
unfolding add_to_head
add_to_head-StandsFor a [] l h s = record {
  from_head = refl;
  from_tail = simp s.from_tail refl;
  distinct = (h, s.distinct);
  forwards = simp s.from_head (ground arith, tt);
  backwards = simp s.from_head (ground arith, tt);
}
add_to_head-StandsFor a (b ∷ ids) l h s = record {
  from_head = refl;
  from_tail = simp (s.from_tail, last_some b ids) refl;
  distinct = (h, s.distinct);
  forwards =
      subst (λ (o : Option ℕ). Forwards (write l.next a o) (a ∷ b ∷ ids)) (sym s.from_head)
        (ground arith, Forwards-write l.next a (some b) (b ∷ ids) h s.forwards);
  backwards =
      subst
        (λ (o : Option ℕ). Backwards (write_at (write l.prev a none) o (some a)) none (a ∷ b ∷ ids))
        (sym s.from_head)
        (
          ground arith,
          (
            ground arith,
            Backwards-write (write l.prev a none) b (some a) (some b) ids s.distinct.0
                (Backwards-write l.prev a none (some b) ids (ground arith) s.backwards.1),
          ),
        );
}

pub has-snoc : (b a : ℕ) (ids : List ℕ) → b ∉ ids → (b == a) ≡ false → b ∉ (ids ++ (a ∷ []))
has-snoc b a [] h n = ground arith
has-snoc b a (c ∷ ids) h n = ground (arith, has-snoc b a ids (ground arith) n)

snoc-Distinct : (a : ℕ) (ids : List ℕ) → a ∉ ids → Distinct ids → Distinct (ids ++ (a ∷ []))
snoc-Distinct a [] h d = (refl, tt)
snoc-Distinct a (b ∷ ids) h (out, d) =
    (has-snoc b a ids out (ground arith), snoc-Distinct a ids (ground arith) d)

pub last_inside : (b c : ℕ) (ids : List ℕ) → last_from (some b) ids ≡ some c → c ∈ (b ∷ ids)
last_inside b c [] e = ground (arith, e)
last_inside b c (d ∷ ids) e = ground (arith, last_inside d c ids e)

snoc-Forwards :
    (next : ℕ → Option ℕ) (a b : ℕ) (ids : List ℕ)
    → a ∉ (b ∷ ids)
    → Distinct (b ∷ ids)
    → Forwards next (b ∷ ids)
    → Forwards
        (write_at (write next a none) (last_from (some b) ids) (some a))
        (b ∷ (ids ++ (a ∷ [])))
snoc-Forwards next a b [] h d (e, f) = (ground arith, (ground arith, tt))
snoc-Forwards next a b (c ∷ ids) h (out, d) (e, f) = (
  kept (last_from (some c) ids) (λ x. last_inside c x ids),
  snoc-Forwards next a c ids (ground arith) d f,
)
  where
    kept :
        (o : Option ℕ)
        → ((x : ℕ) → o ≡ some x → x ∈ (c ∷ ids))
        → write_at (write next a none) o (some a) b ≡ some c
    kept none m = ground (arith, e)
    kept (some x) m = ground (arith, m x refl, e)

snoc-Backwards :
    (prev : ℕ → Option ℕ) (a : ℕ) (p : Option ℕ) (ids : List ℕ)
    → a ∉ ids
    → Backwards prev p ids
    → Backwards (write prev a (last_from p ids)) p (ids ++ (a ∷ []))
snoc-Backwards prev a p [] h g = (ground arith, tt)
snoc-Backwards prev a p (b ∷ ids) h (e, g) =
    (ground (arith, e), snoc-Backwards prev a (some b) ids (ground arith) g)

pub add_to_tail-StandsFor :
    (a : ℕ) (ids : List ℕ) (l : Links)
    → a ∉ ids
    → StandsFor l ids
    → StandsFor (add_to_tail a l) (ids ++ (a ∷ []))
unfolding add_to_tail
add_to_tail-StandsFor a [] l h s = record {
  from_head = simp s.from_tail refl;
  from_tail = refl;
  distinct = (refl, tt);
  forwards =
      subst (λ (o : Option ℕ). Forwards (write_at (write l.next a none) o (some a)) (a ∷ []))
        (sym s.from_tail) (ground arith, tt);
  backwards =
      subst (λ (o : Option ℕ). Backwards (write l.prev a o) none (a ∷ [])) (sym s.from_tail)
        (ground arith, tt);
}
add_to_tail-StandsFor a (b ∷ ids) l h s = record {
  from_head = simp (s.from_tail, last_some b ids) s.from_head;
  from_tail = last_snoc (some b) a ids;
  distinct = snoc-Distinct a (b ∷ ids) h s.distinct;
  forwards =
      subst
        (λ (o : Option ℕ).
          Forwards (write_at (write l.next a none) o (some a)) (b ∷ (ids ++ (a ∷ []))))
        (sym s.from_tail) (snoc-Forwards l.next a b ids h s.distinct s.forwards);
  backwards =
      subst (λ (o : Option ℕ). Backwards (write l.prev a o) none (b ∷ (ids ++ (a ∷ []))))
        (sym s.from_tail) (snoc-Backwards l.prev a none (b ∷ ids) h s.backwards);
}
  where
    last_snoc : (p : Option ℕ) (a : ℕ) (ids : List ℕ) → some a ≡ last_from p (ids ++ (a ∷ []))
    last_snoc p a [] = refl
    last_snoc p a (b ∷ ids) = last_snoc (some b) a ids
