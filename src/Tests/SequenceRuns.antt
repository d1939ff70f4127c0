-- ===== src/Tests/SequenceRuns.antt =====
-- Sequences and clocks of two servers on one machine.
use basket.Prelude.{ℕ, ◌≡◌, refl, arith, List, [], none, some, codes}
use basket.Config.Defs as Config
use basket.Config.Defs.{ConfigurationManager, replicate}
use basket.CharStruct.Defs.{c_str}
use basket.Rpc.Names.{Dispatcher}
use basket.Rpc.Wire.{Args, Reply}
use basket.Rpc.Cluster.{Handler, rpclib}
use basket.Segment.Defs.{Object}
use basket.Segment.Files.{Shared, container}
use basket.Sequencer.Objects as Sequence
use basket.Sequencer.Segments.{second_server-hides}
use basket.Clock.Defs as Clock
use basket.Clock.Objects as Clocks
use basket.Clock.Segments.{second_clock-hides}
use basket.Tests.Base.{list_dispatcher}
use basket.Tests.Machine.{Machine, machine, blank}
use basket.Tests.SegmentRuns.{memory, server_conf, client_conf}

abbrev d : Dispatcher (Handler ℕ (Args ℕ ℕ) (Reply ℕ ℕ))
d = list_dispatcher (Handler ℕ (Args ℕ ℕ) (Reply ℕ ℕ))

abbrev clocks : Dispatcher (Handler Clock.Machine (Args ℕ ℕ) (Reply ℕ ℕ))
clocks = list_dispatcher (Handler Clock.Machine (Args ℕ ℕ) (Reply ℕ ℕ))

second_server-hides_example :
    (t1 t2 : Machine (Shared ℕ)) × (x1 x2 : Object {C = ℕ} machine × d.Table) × (o : Object {C = ℕ}
      machine)
    × (Sequence.construct machine d rpclib memory (server_conf 0) (codes "SEQ") [] blank
        ≡ some (t1, x1))
    × (Sequence.construct machine d rpclib memory (server_conf 1) (codes "SEQ") [] t1
        ≡ some (t2, x2))
    × (Sequence.construct machine d rpclib memory (client_conf 0) (codes "SEQ") [] t2
        ≡ some (t2, (o, [])))
    × (o.members.data_pointer ≡ none)
    × (p : ℕ × List ℕ) × (x1.0.members.data_pointer ≡ some p)
    × (machine.find p.0 p.1 t2 ≡ some (container 0))
unfolding Config.construct c_str
second_server-hides_example =
    second_server-hides machine d rpclib memory refl (codes "SEQ") refl (codes "/dev/shm")
      (server_conf 0) (server_conf 1) (client_conf 0) [] [] [] blank (refl, refl, omega arith)
      (refl, refl, omega arith) (refl, refl, omega arith) refl refl refl refl refl (omega arith)
      (omega arith)

second_clock-hides_example :
    (t1 t2 : Machine (Shared ℕ)) × (x1 x2 : Object {C = ℕ} machine × clocks.Table) × (o : Object
      {C = ℕ} machine)
    × (Clocks.construct machine clocks rpclib memory (server_conf 0) (codes "CLOCK") 10 [] blank
        ≡ some (t1, x1))
    × (Clocks.construct machine clocks rpclib memory (server_conf 1) (codes "CLOCK") 20 [] t1
        ≡ some (t2, x2))
    × (Clocks.construct machine clocks rpclib memory (client_conf 0) (codes "CLOCK") 30 [] t2
        ≡ some (t2, (o, [])))
    × (o.members ≡ x2.0.members)
    × (p : ℕ × List ℕ) × (o.members.data_pointer ≡ some p)
    × (machine.find p.0 p.1 t2 ≡ some (container 20))
    × (q : ℕ × List ℕ) × (x1.0.members.data_pointer ≡ some q)
    × (machine.find q.0 q.1 t2 ≡ some (container 10))
unfolding Config.construct c_str
second_clock-hides_example =
    second_clock-hides machine clocks rpclib memory refl (codes "CLOCK") refl (codes "/dev/shm")
      (server_conf 0) (server_conf 1) (client_conf 0) 10 20 30 [] [] [] blank
      (refl, refl, omega arith) (refl, refl, omega arith) (refl, refl, omega arith) refl refl refl
      refl (omega arith)
