-- ===== src/Links.antt =====
-- Doubly linked lists as pointers: what core/runtime/linkedQueue.ts and
-- http/lifecycle/lruCache.ts have in common. A node is known by its address, and a field of the
-- nodes is a function of the address.
pub mod Unlink
pub mod Ends
use brass_runtime.Base.{
  ℕ, suc, Bool, true, false, not, ◌||◌, ◌&&◌, List, [], ◌∷◌, ◌++◌, Option, none, some, ◌==◌,
  is_some, if◌then◌else◌, ◌≡◌, ap, arith,
}

infix 40 ◌∈◌ ◌∉◌
pub record Links : Type 0 where
  pub head : Option ℕ
  pub tail : Option ℕ
  pub prev : ℕ → Option ℕ
  pub next : ℕ → Option ℕ

-- `head = null; tail = null`
abbrev pub no_links : Links
no_links = record { head = none; tail = none; prev = λ a. none; next = λ a. none }

abbrev pub write {ℓ} : {A : Type ℓ} → (ℕ → A) → ℕ → A → ℕ → A
write f a x b = if b == a then x else f b

pub write_self {ℓ} : {A : Type ℓ} (f : ℕ → A) (a : ℕ) (x : A) → write f a x a ≡ x
write_self f a x = let t : (a == a) ≡ true = ground arith in ap (λ t. if t then x else f a) t

pub write_ne {ℓ} :
    {A : Type ℓ} (f : ℕ → A) (a b : ℕ) (x : A) → (b == a) ≡ false → write f a x b ≡ f b
write_ne f a b x n = ap (λ t. if t then x else f b) n

-- `if (node) node.field = x`
abbrev pub write_at {ℓ} : {A : Type ℓ} → (ℕ → A) → Option ℕ → A → ℕ → A
write_at f none x b = f b
write_at f (some a) x b = if b == a then x else f b

abbrev pub has : ℕ → List ℕ → Bool
has a [] = false
has a (b ∷ xs) = (a == b) || has a xs

abbrev pub ◌∈◌ : ℕ → List ℕ → Type 0
a ∈ xs = has a xs ≡ true

abbrev pub ◌∉◌ : ℕ → List ℕ → Type 0
a ∉ xs = has a xs ≡ false

abbrev pub first : List ℕ → Option ℕ
first [] = none
first (a ∷ xs) = some a

-- The last of a list that follows `p`.
abbrev pub last_from : Option ℕ → List ℕ → Option ℕ
last_from p [] = p
last_from p (a ∷ xs) = last_from (some a) xs

abbrev pub without : ℕ → List ℕ → List ℕ
without a [] = []
without a (b ∷ xs) = let rest = without a xs in if a == b then xs else b ∷ rest

abbrev pub Distinct : List ℕ → Type 0
Distinct [] = Unit
Distinct (a ∷ xs) = (a ∉ xs) × Distinct xs

-- The field leads forwards through the list to null.
abbrev pub Forwards : (ℕ → Option ℕ) → List ℕ → Type 0
Forwards next [] = Unit
Forwards next (a ∷ xs) = (next a ≡ first xs) × Forwards next xs

-- The field leads backwards through the list to `p`.
abbrev pub Backwards : (ℕ → Option ℕ) → Option ℕ → List ℕ → Type 0
Backwards prev p [] = Unit
Backwards prev p (a ∷ xs) = (prev a ≡ p) × Backwards prev (some a) xs

-- The pointers stand for a list of nodes.
pub record StandsFor (l : Links) (ids : List ℕ) : Type 0 where
  pub from_head : l.head ≡ first ids
  pub from_tail : l.tail ≡ last_from none ids
  pub distinct : Distinct ids
  pub forwards : Forwards l.next ids
  pub backwards : Backwards l.prev none ids

-- `if (prev) prev.next = next; else this.head = next;`
unfoldable pub relink_prev : Option ℕ → Option ℕ → Links → Links
relink_prev none next l = record l { head = next }
relink_prev (some p) next l = record l { next = write l.next p next }

-- `if (next) next.prev = prev; else this.tail = prev;`
unfoldable pub relink_next : Option ℕ → Option ℕ → Links → Links
relink_next prev none l = record l { tail = prev }
relink_next prev (some n) l = record l { prev = write l.prev n prev }

-- `node.next = null; node.prev = null;`
abbrev pub clear_pointers : ℕ → Links → Links
clear_pointers a l = record l { prev = write l.prev a none; next = write l.next a none }

-- `unlink` of LinkedQueue: both pointers are read first.
unfoldable pub unlink : ℕ → Links → Links
unfolding relink_prev relink_next
unlink a l =
    let prev = l.prev a in
    let next = l.next a in clear_pointers a (relink_next prev next (relink_prev prev next l))

-- `removeNode` of LRUCache: the pointers are read where they are used.
unfoldable pub remove_node : ℕ → Links → Links
unfolding relink_prev relink_next
remove_node a l =
    let l1 = relink_prev (l.prev a) (l.next a) l in
    clear_pointers a (relink_next (l1.prev a) (l1.next a) l1)

-- `addToHead` of LRUCache.
unfoldable pub add_to_head : ℕ → Links → Links
add_to_head a l = record {
  head = some a;
  tail = if is_some l.tail then l.tail else some a;
  prev = write_at (write l.prev a none) l.head (some a);
  next = write l.next a l.head;
}

-- `push` of LinkedQueue, on a new node.
unfoldable pub add_to_tail : ℕ → Links → Links
add_to_tail a l = record {
  head = if is_some l.tail then l.head else some a;
  tail = some a;
  prev = write l.prev a l.tail;
  next = write_at (write l.next a none) l.tail (some a);
}
