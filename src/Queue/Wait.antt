-- ===== src/Queue/Wait.antt =====
-- The end of `LocalWaitForElement` of `basket::queue`.
use basket.Prelude.{
  ℕ, zero, suc, ◌+◌, ◌<◌, ◌≤◌, ◌≡◌, refl, true, false, ◌==◌, arith, none, some, Bool-cases, inl,
  inr,
}
use basket.Container.Deque.{Deque}
use basket.Queue.Defs.{local_wait_for_element}

module _ {V : Type 0} (boost : Deque V) (mapped : V) where
  open boost use {T, items}

  module _ (seen : ℕ → T) where
    wait-from :
        (polls count n : ℕ)
        → count ≤ n
        → n < count + polls
        → ((m : ℕ) → count ≤ m → m < n → boost.size (seen m) ≡ 0)
        → (boost.size (seen n) == 0) ≡ false
        → local_wait_for_element boost mapped polls seen count ≡ some (seen n, true)
    unfolding local_wait_for_element
    wait-from zero count n lo hi before now = absurd (omega arith)
    wait-from (suc polls) count n lo hi before now = elim (Bool-cases (count == n)) [
      | inl here ↦ let e : count ≡ n = ground arith in rw (e, now)
      | inr later ↦
          let waits : (boost.size (seen count) == 0) ≡ true =
            ground (arith, before count (omega arith) (ground arith)) in
          rw waits (
            wait-from polls (count + 1) n (ground arith) (omega arith)
              (λ m le lt. before m (omega arith) lt) now)
    ]

    -- Where poll `n` is the first to find an item, more than `n` polls end the wait: it returns true,
    -- with the queue that this poll saw.
    pub wait-first :
        (polls n : ℕ)
        → n < polls
        → ((m : ℕ) → m < n → boost.size (seen m) ≡ 0)
        → (boost.size (seen n) == 0) ≡ false
        → local_wait_for_element boost mapped polls seen 0 ≡ some (seen n, true)
    wait-first polls n lt before now =
        wait-from polls 0 n (omega arith) (omega arith) (λ m _ below. before m below) now

    wait_none :
        (polls count : ℕ)
        → ((m : ℕ) → boost.size (seen m) ≡ 0)
        → local_wait_for_element boost mapped polls seen count ≡ none
    unfolding local_wait_for_element
    wait_none zero count empty = refl
    wait_none (suc polls) count empty = rw (empty count) (wait_none polls (count + 1) empty)
