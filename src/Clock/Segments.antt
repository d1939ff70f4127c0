-- ===== src/Clock/Segments.antt =====
-- Two servers of a `basket::global_clock` on one machine.
use basket.Prelude.{ℕ, ◌≤◌, ◌*◌, ◌≡◌, refl, true, false, List, some, codes}
use basket.CharStruct.Defs.{CharStruct}
use basket.CharStruct.Text.{IsArray, IsText}
use basket.Config.Defs.{ConfigurationManager}
use basket.Rpc.Names.{Dispatcher}
use basket.Rpc.Cluster.{Handler, RpcImplementation}
use basket.Rpc.Wire.{Args, Reply}
use basket.Segment.Files.{Shared, container, ManagedFiles}
use basket.Segment.Defs.{Object}
use basket.Segment.Paths.{numbered, plain_path}
use basket.Segment.Attach.{attach-Made}
use basket.Segment.Unnumbered.{InDir, server-Anew, client-attached}
use basket.Clock.Defs.{Machine, bindings}
use basket.Clock.Objects.{construct}

module _ (files : ManagedFiles (Shared ℕ)) (d : Dispatcher (Handler Machine (Args ℕ ℕ) (Reply ℕ ℕ)))
    (impl : RpcImplementation) (memory : CharStruct) (array : IsArray memory) (name_ : List ℕ)
    (word : IsText name_) where
  abbrev pub ClockInDir : List ℕ → ConfigurationManager → Type 0
  ClockInDir =
      InDir files d (bindings impl) memory array name_ word (λ n. codes "Time") 0
        (λ c. 1024 * 1024 * 128)

  -- Two servers of a clock with the same name start on one machine, at the times `now1` and `now2`. Both
  -- constructors succeed, and the first still has the time of its start; but the file is that of the
  -- second. So the constructor of a client of either, whatever its number, gets the pointers of the
  -- second, and reads the time of its start. It is asked that the path fits into its array and the
  -- file has room.
  pub second_clock-hides :
      (dir : List ℕ) (first second client : ConfigurationManager) (now1 now2 now : ℕ)
      (f1 f2 f : d.Table) (t : files.T)
      → ClockInDir dir first
      → ClockInDir dir second
      → ClockInDir dir client
      → first.is_server ≡ true
      → second.is_server ≡ true
      → client.is_server ≡ false
      → client.server_on_node ≡ true
      → 2 ≤ files.capacity 65536
      → (t1 t2 : files.T) × (x1 x2 : Object files × d.Table) × (o : Object files) × (construct files
            d impl memory first name_ now1 f1 t
          ≡ some (t1, x1))
        × (construct files d impl memory second name_ now2 f2 t1 ≡ some (t2, x2))
        × (construct files d impl memory client name_ now f t2 ≡ some (t2, (o, f)))
        × (o.members ≡ x2.0.members)
        × (p : files.Segment × List ℕ) × (o.members.data_pointer ≡ some p)
        × (files.find p.0 p.1 t2 ≡ some (container now2))
        × (q : files.Segment × List ℕ) × (x1.0.members.data_pointer ≡ some q)
        × (files.find q.0 q.1 t2 ≡ some (container now1))
  unfolding construct
  second_clock-hides dir first second client now1 now2 now f1 f2 f t in1 in2 in3 server1 server2
        is_client near room =
      let size : ConfigurationManager → ℕ = λ c. 1024 * 1024 * 128 in
      let time : List ℕ → List ℕ = λ n. codes "Time" in
      let (t1, x1, run1, (s, _, there, _, _, pointer, _), _, _) =
        server-Anew files d (bindings impl) memory array name_ word time now1 size dir first f1 t
          in1 server1 room refl in
      let (t2, x2, run2, made, _, (_, stay)) =
        server-Anew files d (bindings impl) memory array name_ word time now2 size dir second f2 t1
          in2 server2 room refl in
      let attached =
        attach-Made files time now2 (plain_path dir name_) (numbered name_ client.my_server) t2
          x2.0.members made in
      let (o, run, same) =
        client-attached files d (bindings impl) memory array name_ word time now size dir client f
          t2 x2.0.members in3 is_client near attached in
      let (s2, _, there2, _, _, pointer2, _) = made in
      (
        t1,
        t2,
        x1,
        x2,
        o,
        run1,
        run2,
        run,
        same,
        (s2, codes "Time"),
        rw same pointer2,
        there2,
        (s, codes "Time"),
        pointer,
        stay s (codes "Time") (container now1) there,
      )
