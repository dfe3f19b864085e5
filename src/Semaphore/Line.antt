-- ===== src/Semaphore/Line.antt =====
-- The semaphore as one line of acquisitions and a number of places at its head.
use brass_runtime.Base.{
  ℕ, zero, suc, ◌+◌, ◌-◌, max, Bool, true, false, List, [], ◌∷◌, ◌++◌, length, get_or, set, ltb,
  if◌then◌else◌, ◌≡◌,
}
use brass_runtime.LinkedQueue.{unlink}
use brass_runtime.Semaphore.{Semaphore}
use brass_runtime.Semaphore.Permits.{
  Action, acquiring, cancelling, releasing, permitting, releasing_once,
}

-- The acquisitions that were not cancelled stand in one line in their order, each with the number
-- of its node and its callback. The first `places` of them have been given a permit, the others
-- wait. `tickets` have waited at some time, and `called` says which releases were called.
pub record Line : Type 0 where
  pub places : ℕ
  pub line : List (ℕ × ℕ)
  pub tickets : ℕ
  pub called : List Bool

abbrev pub first : {A : Type 0} → ℕ → List A → List A
first zero xs = []
first (suc n) [] = []
first (suc n) (x ∷ xs) = x ∷ first n xs

abbrev pub beyond : {A : Type 0} → ℕ → List A → List A
beyond zero xs = xs
beyond (suc n) [] = []
beyond (suc n) (x ∷ xs) = beyond n xs

abbrev pub callbacks : List (ℕ × ℕ) → List ℕ
callbacks [] = []
callbacks ((node, cb) ∷ rest) = cb ∷ callbacks rest

abbrev pub start : ℕ → Line
start n = record { places = max 1 n; line = []; tickets = 0; called = [] }

-- An acquisition goes to the end of the line; a release makes a place; a canceler takes its node
-- out of the line where it still waits; a `releaseOnce` makes a place the first time.
unfoldable pub move : Action → Line → Line
move (acquiring cb) l = record l {
  line = l.line ++ ((l.tickets, cb) ∷ []);
  tickets = if ltb (length l.line) l.places then l.tickets else suc l.tickets;
}
move (cancelling node) l = record l {
  line = first l.places l.line ++ unlink node (beyond l.places l.line);
}
move releasing l = record l { places = l.places + 1 }
move permitting l = record l { called = l.called ++ (false ∷ []) }
move (releasing_once permit) l =
    if get_or l.called permit true
    then l
    else record l { places = l.places + 1; called = set l.called permit true }

unfoldable pub move_all : List Action → Line → Line
unfolding move
move_all [] l = l
move_all (a ∷ rest) l = move_all rest (move a l)

-- The callbacks that were given a permit, in the order of the grants, are those of the first
-- places of the line, and the waiters are the rest of it; the places that nobody has are the
-- permits available.
pub record Shows (l : Line) (s : Semaphore) : Type 0 where
  pub granted : s.granted ≡ callbacks (first l.places l.line)
  pub waiting : s.waiters.nodes ≡ beyond l.places l.line
  pub available : s.available ≡ l.places - length l.line
  pub tickets : s.waiters.made ≡ l.tickets
  pub called : s.permits ≡ l.called
