-- ===== src/Semaphore/Served.antt =====
-- The operations of the semaphore and those of its line.
use mathlib.Core.List.{append_assoc, append-nil}
use brass_runtime.Base.{
  ℕ, suc, ◌+◌, ◌-◌, Bool, true, false, List, [], ◌∷◌, ◌++◌, Option, length, length-append, lt→ltb,
  ◌≤◌, ◌<◌, get_or, set, ltb, if◌then◌else◌, ◌≡◌, inl, inr, refl, sym, ap, ◌∙◌, arith,
  either_branch, subst,
}
use brass_runtime.LinkedQueue.{unlink, shift_nodes}
use brass_runtime.Semaphore.{
  Semaphore, make_semaphore, acquire, cancel, release_to, release, new_permit, release_once,
}
use brass_runtime.Semaphore.Permits.{
  Action, acquiring, cancelling, releasing, permitting, releasing_once, act, act_all,
}
use brass_runtime.Semaphore.Line.{Line, beyond, start, move, move_all, Shows}
use brass_runtime.Semaphore.Cuts.{Cut, Cut-split, callbacks-append, length-line, Cut-Shows}

put_last :
    (line front nodes : List (ℕ × ℕ)) (x : ℕ × ℕ)
    → line ≡ front ++ nodes
    → nodes ≡ []
    → line ++ (x ∷ []) ≡ (front ++ (x ∷ [])) ++ nodes
put_last line front nodes x e empty =
    simp (e, empty)
      (ap (λ xs. xs ++ (x ∷ [])) (append-nil front) ∙ sym (append-nil (front ++ (x ∷ []))))

le→not-ltb : (a b : ℕ) → b ≤ a → ltb a b ≡ false
le→not-ltb a b h = ground arith

acquire-Cut :
    (cb : ℕ) (l : Line) (s : Semaphore) → Cut l s → Cut (move (acquiring cb) l) (acquire cb s).1
unfolding acquire move
acquire-Cut cb l s c =
    either_branch (λ (r : Option ℕ × Semaphore). Cut (move (acquiring cb) l) r.1)
      (ltb 0 s.available)
      (λ h.
        let empty : s.waiters.nodes ≡ [] = elim c.busy [
          | inl e ↦ e
          | inr e ↦ absurd (ground arith)
        ] in
        let some_free : 0 < s.available = ground arith in
        let fits : ltb (length l.line) l.places ≡ true =
          lt→ltb (length l.line) l.places
            (omega (arith, c.room, length-line l s c, ap (length {A = ℕ × ℕ}) empty)) in
        let room : length (c.front ++ ((l.tickets, cb) ∷ [])) + (s.available - 1) ≡ l.places =
          omega (arith, c.room, length-append c.front ((l.tickets, cb) ∷ [])) in
        record {
          front = c.front ++ ((l.tickets, cb) ∷ []);
          whole = put_last l.line c.front s.waiters.nodes (l.tickets, cb) c.whole empty;
          served = callbacks-append c.front l.tickets cb ∙ ap (λ xs. xs ++ (cb ∷ [])) c.served;
          room = room;
          busy = inl empty;
          tickets = c.tickets ∙ sym (ap (λ b. if b then l.tickets else suc l.tickets) fits);
          called = c.called;
        })
      (λ h.
        let none_free : s.available ≡ 0 = ground arith in
        let full : ltb (length l.line) l.places ≡ false =
          le→not-ltb (length l.line) l.places (omega (arith, c.room, length-line l s c)) in
        record {
          front = c.front;
          whole =
              ap (λ xs. xs ++ ((l.tickets, cb) ∷ [])) c.whole
              ∙ append_assoc c.front s.waiters.nodes ((l.tickets, cb) ∷ [])
              ∙ ap (λ n. c.front ++ (s.waiters.nodes ++ ((n, cb) ∷ []))) (sym c.tickets);
          served = c.served;
          room = c.room;
          busy = inr none_free;
          tickets = ap suc c.tickets ∙ sym (ap (λ b. if b then l.tickets else suc l.tickets) full);
          called = c.called;
        })

release_to-Cut :
    (ws : List (ℕ × ℕ)) (l : Line) (s : Semaphore)
    → Cut l s
    → s.waiters.nodes ≡ ws
    → Cut
        (record l { places = l.places + 1 })
        (release_to
          (shift_nodes ws s.waiters.made)
          (record s { total_released = s.total_released + 1 }))
release_to-Cut [] l s c e = record {
  front = c.front;
  whole = c.whole;
  served = c.served;
  room = omega (arith, c.room);
  busy = inl e;
  tickets = c.tickets;
  called = c.called;
}
release_to-Cut ((node, w) ∷ rest) l s c e =
    let none_free : s.available ≡ 0 = elim c.busy [
      | inl z ↦ absurd (omega (arith, ap (length {A = ℕ × ℕ}) (sym z ∙ e)))
      | inr z ↦ z
    ] in
    record {
      front = c.front ++ ((node, w) ∷ []);
      whole = c.whole ∙ ap (◌++◌ c.front) e ∙ sym (append_assoc c.front ((node, w) ∷ []) rest);
      served = callbacks-append c.front node w ∙ ap (λ xs. xs ++ (w ∷ [])) c.served;
      room = omega (arith, c.room, length-append c.front ((node, w) ∷ []));
      busy = inr none_free;
      tickets = c.tickets;
      called = c.called;
    }

release-Cut :
    (l : Line) (s : Semaphore) → Cut l s → Cut (record l { places = l.places + 1 }) (release s)
unfolding release
release-Cut l s c = release_to-Cut s.waiters.nodes l s c refl

with_called :
    (l : Line) (s : Semaphore) (b : List Bool)
    → Cut l s
    → Cut (record l { called = b }) (record s { permits = b })
with_called l s b c = record {
  front = c.front;
  whole = c.whole;
  served = c.served;
  room = c.room;
  busy = c.busy;
  tickets = c.tickets;
  called = refl;
}

unlink-none : (node : ℕ) (ws : List (ℕ × ℕ)) → ws ≡ [] → unlink node ws ≡ []
unlink-none node ws e = ap (unlink node) e

act-Cut : (a : Action) (l : Line) (s : Semaphore) → Cut l s → Cut (move a l) (act a s)
unfolding act move cancel new_permit release_once
act-Cut (acquiring cb) l s c = acquire-Cut cb l s c
act-Cut (cancelling node) l s c =
    let (p, q) = Cut-split l s c in
    record {
      front = c.front;
      whole =
          ap (λ xs. xs ++ unlink node (beyond l.places l.line)) p
          ∙ ap (λ xs. c.front ++ unlink node xs) q;
      served = c.served;
      room = c.room;
      busy = elim c.busy [ inl e ↦ inl (unlink-none node s.waiters.nodes e) | inr e ↦ inr e ];
      tickets = c.tickets;
      called = c.called;
    }
act-Cut releasing l s c = release-Cut l s c
act-Cut permitting l s c =
    subst
      (λ (b : List Bool).
        Cut (record l { called = b ++ (false ∷ []) })
          (record s { permits = s.permits ++ (false ∷ []) }))
      c.called (with_called l s (s.permits ++ (false ∷ [])) c)
act-Cut (releasing_once permit) l s c =
    subst
      (λ (b : List Bool).
        Cut
          (if get_or b permit true
            then l
            else record l { places = l.places + 1; called = set b permit true })
          (if get_or s.permits permit true
            then s
            else release (record s { permits = set s.permits permit true })))
      c.called (once (get_or s.permits permit true))
  where
    once :
        (b : Bool)
        → Cut
            (if b
              then l
              else record l { places = l.places + 1; called = set s.permits permit true })
            (if b then s else release (record s { permits = set s.permits permit true }))
    once true = c
    once false =
        release-Cut (record l { called = set s.permits permit true })
          (record s { permits = set s.permits permit true })
          (with_called l s (set s.permits permit true) c)

-- Whatever is done to a new semaphore, the acquisitions that were not cancelled while they waited
-- are served in their order, by their own callbacks: as many as the capacity and the releases
-- together allow have been given a permit, the others wait, and the permits available are those
-- that nobody has asked for. Only the first call of a `releaseOnce` counts as a release.
pub act_all_refines :
    (n : ℕ) (actions : List Action)
    → Shows (move_all actions (start n)) (act_all actions (make_semaphore n))
unfolding act_all move_all
act_all_refines n actions = from actions (start n) (make_semaphore n) (record {
  front = [];
  whole = refl;
  served = refl;
  room = omega arith;
  busy = inl refl;
  tickets = refl;
  called = refl;
})
  where
    from :
        (actions : List Action) (l : Line) (s : Semaphore)
        → Cut l s
        → Shows (move_all actions l) (act_all actions s)
    from [] l s c = Cut-Shows l s c
    from (a ∷ rest) l s c = from rest (move a l) (act a s) (act-Cut a l s c)
