-- ===== src/Tests/PriorityRuns.antt =====
-- `basket::priority_queue` on two servers.
use mathlib.Core.List.{Perm}
use mathlib.Core.List.Perm
use basket.Prelude.{map, false, ℕ, ◌≡◌, refl, true, false, arith, List, [], ◌∷◌, codes}
use basket.Container.Heap.{Heap, list_heap, Descending}
use basket.Rpc.Names.{Dispatcher}
use basket.Rpc.Cluster.{Handler, Node, rpclib}
use basket.Rpc.Serve.{IsServing}
use basket.Rpc.Wire.{Args, Reply}
use basket.PriorityQueue.Defs.{construct, bindings}
use basket.PriorityQueue.Remote.{priority_queue_construct-IsServing}
use basket.PriorityQueue.Order.{pop_times, pops-Descending}
use basket.PriorityQueue.Callers.{
  Op, pushing, popping, topping, sizing, a_flag, an_item, a_number, effects, Ends, run,
  priority_queue-run-Ends,
}
use basket.Store.{Caller}
use basket.Tests.Base.{client, a_server, nat_order, list_dispatcher, client_handle, each}

abbrev std : Heap ℕ
std = list_heap 0

abbrev d : Dispatcher (Handler (List ℕ) (Args ℕ ℕ) (Reply ℕ ℕ))
d = list_dispatcher (Handler (List ℕ) (Args ℕ ℕ) (Reply ℕ ℕ))

abbrev fresh : Node d
fresh = construct std 0 d rpclib (codes "TEST") []

abbrev servers : List (Node d)
servers = fresh ∷ fresh ∷ []

-- Server 1 has three elements.
abbrev filled : List (Node d)
filled = fresh ∷ record fresh { segment = 2 ∷ 9 ∷ 4 ∷ [] } ∷ []

empty-IsServing : IsServing d (bindings std 0 rpclib) client_handle servers
empty-IsServing =
    (priority_queue_construct-IsServing std 0 d rpclib client_handle servers refl (omega arith)
      (omega arith)
      (λ i node at.
        ([], (λ n f _. refl), each (λ n. n ≡ fresh) servers (refl, (refl, tt)) i node at))).0

abbrev queue_calls : List (Caller × Op ℕ)
queue_calls =
    (client, pushing 8 1)
    ∷ (a_server, pushing 9 1)
    ∷ (client, topping 1)
    ∷ (a_server, popping 1)
    ∷ (client, popping 1)
    ∷ (client, sizing 1)
    ∷ (client, popping 0)
    ∷ []

priority_queue-run-Ends_example :
    Ends std 0 d rpclib client_handle
      (run std 0 d rpclib client_handle queue_calls servers)
      (a_flag true
        ∷ a_flag true
        ∷ an_item (true, 9)
        ∷ an_item (true, 9)
        ∷ an_item (true, 8)
        ∷ a_number 0
        ∷ an_item (false, 0)
        ∷ [])
      (effects std 0 (map (λ c. c.1) queue_calls) (λ i. []))
unfolding construct
priority_queue-run-Ends_example =
    priority_queue-run-Ends std 0 d rpclib client_handle queue_calls servers (λ i. [])
      (
        (omega arith, omega arith),
        (
          (omega arith, omega arith),
          (
            (omega arith, omega arith),
            (
              (omega arith, omega arith),
              (
                (omega arith, omega arith),
                ((omega arith, omega arith), ((omega arith, omega arith), tt)),
              ),
            ),
          ),
        ),
      )
      empty-IsServing
      (λ i node at.
        rw (each (λ n. n.segment ≡ []) servers (refl, (refl, tt)) i node at) (Perm.refl [], tt))

pops-Descending_example :
    (vs : List ℕ) × ((pop_times std 0 3 (2 ∷ 9 ∷ 4 ∷ [])).1 ≡ map (λ v. (true, v)) vs)
    × Perm vs (2 ∷ 9 ∷ 4 ∷ [])
    × Descending vs
    × ((pop_times std 0 3 (2 ∷ 9 ∷ 4 ∷ [])).0 ≡ [])
pops-Descending_example = pops-Descending std 0 3 (2 ∷ 9 ∷ 4 ∷ []) refl
