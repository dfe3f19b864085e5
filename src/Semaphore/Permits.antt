-- ===== src/Semaphore/Permits.antt =====
-- What is done to a semaphore, and a second call of a `releaseOnce`.
use brass_runtime.Base.{
  ℕ, ◌+◌, ◌<◌, true, List, [], ◌∷◌, length, get_or, set, ◌≡◌, refl, ap, ◌∙◌, either_branch,
  get_or-set_self,
}
use brass_runtime.LinkedQueue.{shift_nodes}
use brass_runtime.Semaphore.{
  Semaphore, acquire, cancel, release_to, release, new_permit, release_once,
}

permits-release_to :
    (ws : List (ℕ × ℕ)) (made : ℕ) (s : Semaphore)
    → (release_to (shift_nodes ws made) s).permits ≡ s.permits
permits-release_to [] made s = refl
permits-release_to (w ∷ ws) made s = refl

permits-release : (s : Semaphore) → (release s).permits ≡ s.permits
unfolding release
permits-release s =
    permits-release_to s.waiters.nodes s.waiters.made
      (record s { total_released = s.total_released + 1 })

done_before :
    (permit : ℕ) (s : Semaphore) → get_or s.permits permit true ≡ true → release_once permit s ≡ s
unfolding release_once
done_before permit s e = rw e refl

-- The second call of a `releaseOnce` changes nothing.
pub release_once-twice :
    (permit : ℕ) (s : Semaphore)
    → permit < length s.permits
    → release_once permit (release_once permit s) ≡ release_once permit s
unfolding release_once
release_once-twice permit s h =
    let s1 = record s { permits = set s.permits permit true } in
    either_branch (λ (r : Semaphore). release_once permit r ≡ r) (get_or s.permits permit true)
      (λ e. done_before permit s e)
      (λ _. done_before permit (release s1) (
        ap (λ t. get_or t permit true) (permits-release s1)
        ∙ get_or-set_self s.permits permit true true h))

-- What is done to a semaphore: an acquisition, the canceler of a waiter, a manual release, a new
-- `releaseOnce`, and a call of one.
pub data Action : Type 0 where
  acquiring : ℕ → Action
  cancelling : ℕ → Action
  releasing : Action
  permitting : Action
  releasing_once : ℕ → Action

unfoldable pub act : Action → Semaphore → Semaphore
unfolding acquire cancel release new_permit release_once
act (acquiring cb) s = (acquire cb s).1
act (cancelling node) s = cancel node s
act releasing s = release s
act permitting s = (new_permit s).1
act (releasing_once permit) s = release_once permit s

unfoldable pub act_all : List Action → Semaphore → Semaphore
unfolding act
act_all [] s = s
act_all (a ∷ rest) s = act_all rest (act a s)
