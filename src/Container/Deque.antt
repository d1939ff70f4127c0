-- ===== src/Container/Deque.antt =====
-- `boost::interprocess::deque`, which include/basket/queue/queue.cpp uses and the repository does not
-- hold: each operation by what the documentation says of the sequence from front to back.
use basket.Prelude.{ℕ, ◌≡◌, List, [], ◌∷◌, ◌++◌, length}

pub record Deque (V : Type 0) : Type 1 where
  pub T : Type 0
  pub items : T → List V
  pub empty : T
  pub push_back : V → T → T
  pub front : T → V
  pub pop_front : T → T
  pub size : T → ℕ
  pub items-empty : items empty ≡ []
  pub items-push_back : (v : V) (q : T) → items (push_back v q) ≡ items q ++ v ∷ []
  pub front-items : (q : T) (v : V) (vs : List V) → items q ≡ v ∷ vs → front q ≡ v
  pub items-pop_front : (q : T) (v : V) (vs : List V) → items q ≡ v ∷ vs → items (pop_front q) ≡ vs
  pub size-length : (q : T) → size q ≡ length (items q)
