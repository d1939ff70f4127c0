-- ===== src/Tests/QueueSegmentRuns.antt =====
-- The queues of two servers on one machine, and calls for them.
use mathlib.Core.Option.{some-injective}
use basket.Prelude.{
  map, zero, suc, subst, ℕ, ◌≡◌, refl, arith, List, [], ◌∷◌, true, false, some, codes,
}
use basket.Config.Defs as Config
use basket.Config.Defs.{replicate}
use basket.CharStruct.Defs.{c_str}
use basket.Rpc.Cluster.{Node, rpclib}
use basket.Rpc.Address.{to_string, decimal_loop}
use basket.Segment.Files.{Shared}
use basket.Store
use basket.Queue.Defs.{bindings}
use basket.Queue.Callers.{a_flag, an_item, a_number, effects, Ends, run}
use basket.Queue.Segments.{
  QueueStart, QueueObject, QueueServers, QueueListed, name_of, queue_nodes, starts,
  queue-servers-run,
}
use basket.Tests.Base.{client_handle}
use basket.Tests.Machine.{Machine, machine, blank}
use basket.Tests.SegmentRuns.{memory, server_conf}
use basket.Tests.QueueRuns.{deque, others, d, item_calls}

abbrev queues : List (QueueStart deque 0 5 others machine d rpclib memory refl)
queues =
    record { conf = server_conf 0; name_ = codes "TEST"; functions = [] }
    ∷ record { conf = server_conf 1; name_ = codes "TEST"; functions = [] }
    ∷ []

two_servers : QueueServers deque 0 5 others machine d rpclib memory refl (codes "/dev/shm") queues
unfolding Config.construct c_str to_string decimal_loop
two_servers = (
  (refl, omega arith, (refl, refl, omega arith)),
  refl,
  (λ e. absurd (omega (arith, e.1)), tt),
  ((refl, omega arith, (refl, refl, omega arith)), refl, tt, tt),
)

abbrev Listed : ℕ → QueueStart deque 0 5 others machine d rpclib memory refl → Type 0
Listed i s =
    (s.conf.my_server ≡ i)
    × (name_of deque 0 5 others machine d rpclib memory refl s ≡ codes "TEST")
    × Store.IsFree d (bindings deque 0 5 others rpclib) (codes "TEST") s.functions

listed : QueueListed deque 0 5 others machine d rpclib memory refl client_handle queues
listed zero s e = subst (Listed 0) (some-injective _ _ e) (refl, refl, (λ n f _. refl))
listed (suc zero) s e = subst (Listed 1) (some-injective _ _ e) (refl, refl, (λ n f _. refl))
listed (suc (suc i)) s e = cc

queue-servers-run_example :
    (t' : Machine (Shared (List ℕ))) × (made : List
      (QueueObject deque 0 5 others machine d rpclib memory refl))
    × (nodes : List (Node d)) × (starts deque 0 5 others machine d rpclib memory refl queues blank
        ≡ some (t', made))
    × (queue_nodes deque 0 5 others machine d rpclib memory refl t' made ≡ some nodes)
    × Ends deque 0 5 others d rpclib client_handle
        (run deque 0 5 others d rpclib client_handle item_calls nodes)
        (a_flag true ∷ a_flag true ∷ an_item (true, 8) ∷ a_number 1 ∷ an_item (false, 0) ∷ [])
        (effects 0 (map (λ c. c.1) item_calls) (λ j. []))
queue-servers-run_example =
    queue-servers-run deque 0 5 others machine d rpclib memory refl client_handle (codes "/dev/shm")
      queues blank item_calls two_servers refl (omega arith) (omega arith) listed
      (
        (omega arith, omega arith),
        (
          (omega arith, omega arith),
          (
            (omega arith, omega arith),
            ((omega arith, omega arith), ((omega arith, omega arith), tt)),
          ),
        ),
      )
