-- ===== src/Tests/QueueRuns.antt =====
-- `basket::queue` and `basket::global_sequence` on two servers.
use basket.Prelude.{
  Option, none, map, ℕ, zero, suc, ◌≡◌, ◌<◌, refl, true, false, arith, List, [], ◌∷◌, ◌++◌, some,
  codes, length, drop,
}
use basket.Container.Deque.{Deque}
use basket.Rpc.Names.{Dispatcher}
use basket.Rpc.Cluster.{Handle, Handler, Node, rpclib}
use basket.Rpc.Serve.{IsServing, Everywhere}
use basket.Rpc.Wire.{Args, Reply}
use basket.Queue.Defs.{construct, bindings, wait_for_element}
use basket.Queue.Remote.{wait_for_element-first, queue_construct-IsServing}
use basket.Sequencer.Defs
use basket.Sequencer.Defs.{get_next_sequence}
use basket.Sequencer.Numbers.{take_turns, take_turns-numbers, sequence_construct-IsServing}
use basket.Store.{Caller}
use basket.Queue.Callers.{
  Op, pushing, popping, sizing, a_flag, an_item, a_number, effects, items_at, Ends, run,
  queue-run-Ends,
}
use basket.Tests.Base.{client, a_server, list_dispatcher, server_handle, client_handle, each}

abbrev pub front : List ℕ → ℕ
front [] = 0
front (v ∷ vs) = v

pub front-items : (q : List ℕ) (v : ℕ) (vs : List ℕ) → q ≡ v ∷ vs → front q ≡ v
front-items q v vs e = rw e

pub pop_items : (q : List ℕ) (v : ℕ) (vs : List ℕ) → q ≡ v ∷ vs → drop 1 q ≡ vs
pop_items q v vs e = rw e

abbrev pub deque : Deque ℕ
deque = record {
  T = List ℕ;
  items = λ q. q;
  empty = [];
  push_back = λ v q. q ++ v ∷ [];
  front = front;
  pop_front = drop 1;
  size = length;
  items-empty = refl;
  items-push_back = λ v q. refl;
  front-items = front-items;
  items-pop_front = pop_items;
  size-length = λ q. refl;
}

-- Another caller pushes 7 before the second poll.
abbrev pub others : List ℕ → ℕ → List ℕ
others q zero = q
others q (suc n) = q ++ 7 ∷ []

abbrev pub d : Dispatcher (Handler (List ℕ) (Args ℕ ℕ) (Reply ℕ ℕ))
d = list_dispatcher (Handler (List ℕ) (Args ℕ ℕ) (Reply ℕ ℕ))

abbrev fresh : Node d
fresh = construct deque 0 5 others d rpclib (codes "TEST") []

abbrev servers : List (Node d)
servers = fresh ∷ fresh ∷ []

constructed :
    IsServing d (bindings deque 0 5 others rpclib) client_handle servers
    × Everywhere d (λ q. q ≡ []) servers
constructed =
    queue_construct-IsServing deque 0 5 others d rpclib client_handle servers refl (omega arith)
      (omega arith)
      (λ i node at.
        ([], (λ n f _. refl), each (λ n. n ≡ fresh) servers (refl, (refl, tt)) i node at))

abbrev pub item_calls : List (Caller × Op ℕ)
item_calls =
    (client, pushing 8 1)
    ∷ (a_server, pushing 9 1)
    ∷ (client, popping 1)
    ∷ (a_server, sizing 1)
    ∷ (client, popping 0)
    ∷ []

queue-run-Ends_example :
    Ends deque 0 5 others d rpclib client_handle
      (run deque 0 5 others d rpclib client_handle item_calls servers)
      (a_flag true ∷ a_flag true ∷ an_item (true, 8) ∷ a_number 1 ∷ an_item (false, 0) ∷ [])
      (effects 0
        (map (λ c. c.1) item_calls)
        (items_at deque 0 5 others d rpclib client_handle servers))
unfolding construct
queue-run-Ends_example =
    queue-run-Ends deque 0 5 others d rpclib client_handle item_calls servers
      (
        (omega arith, omega arith),
        (
          (omega arith, omega arith),
          (
            (omega arith, omega arith),
            ((omega arith, omega arith), ((omega arith, omega arith), tt)),
          ),
        ),
      )
      constructed.0

no_items_before : (m : ℕ) → m < 1 → length (others [] m) ≡ 0
no_items_before zero lt = refl
no_items_before (suc m) lt = absurd (omega arith)

wait_for_element-first_example :
    wait_for_element deque 0 5 others d client_handle 1 servers
    ≡ some (fresh ∷ record fresh { segment = 7 ∷ [] } ∷ [], true)
unfolding construct
wait_for_element-first_example =
    wait_for_element-first deque 0 5 others d rpclib client_handle servers constructed.0 1 1 fresh
      (omega arith) refl (omega arith) no_items_before refl

abbrev counters : Dispatcher (Handler ℕ (Args ℕ ℕ) (Reply ℕ ℕ))
counters = list_dispatcher (Handler ℕ (Args ℕ ℕ) (Reply ℕ ℕ))

abbrev counter : Node counters
counter = Defs.construct counters rpclib (codes "TEST") []

abbrev counter_servers : List (Node counters)
counter_servers = counter ∷ counter ∷ []

counting :
    IsServing counters (Defs.bindings rpclib) client_handle counter_servers
    × Everywhere counters (λ v. v ≡ 0) counter_servers
counting =
    sequence_construct-IsServing counters rpclib client_handle counter_servers refl (omega arith)
      (omega arith)
      (λ i node at.
        ([], (λ n f _. refl), each (λ n. n ≡ counter) counter_servers (refl, (refl, tt)) i node at))

-- Server 1 itself, and a client without a server on its node, whose pointer is null.
abbrev own_handle : Handle
own_handle = record server_handle { my_server = 1 }

own_side : IsServing counters (Defs.bindings rpclib) own_handle counter_servers
own_side = record {
  width = refl;
  home = omega arith;
  fits = omega arith;
  serves = counting.0.serves;
}

abbrev askers : List (Handle × Option ℕ)
askers = (client_handle, none) ∷ (own_handle, some 1) ∷ (client_handle, none) ∷ []

take_turns-numbers_example :
    (after : List (Node counters)) × (take_turns counters rpclib 1 askers counter_servers
      ≡ some (after, 1 ∷ 2 ∷ 3 ∷ []))
unfolding Defs.construct
take_turns-numbers_example =
    take_turns-numbers counters rpclib 1 askers counter_servers counter
      (
        (omega arith, counting.0, (λ near. cc)),
        ((omega arith, own_side, (λ near. refl)), ((omega arith, counting.0, (λ near. cc)), tt)),
      )
      refl (omega arith)
