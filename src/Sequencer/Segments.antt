-- ===== src/Sequencer/Segments.antt =====
-- Two servers of a `basket::global_sequence` on one machine.
use basket.Prelude.{ℕ, ◌≤◌, ◌≡◌, ◌≢◌, ◌∙◌, true, false, List, none, some, codes, str_eq_comm}
use basket.CharStruct.Defs.{CharStruct}
use basket.CharStruct.Text.{IsArray, IsText}
use basket.Config.Defs.{ConfigurationManager}
use basket.Rpc.Names.{Dispatcher}
use basket.Rpc.Cluster.{Handler, RpcImplementation}
use basket.Rpc.Wire.{Args, Reply}
use basket.Segment.Files.{Shared, container, ManagedFiles}
use basket.Segment.Defs.{Object}
use basket.Segment.Paths.{numbered, numbered-mtx, numbered-apart, plain_path}
use basket.Segment.Attach.{attach-Bare}
use basket.Segment.Unnumbered.{InDir, server-Anew, client-attached}
use basket.Sequencer.Defs.{bindings}
use basket.Sequencer.Objects.{construct}

module _ (files : ManagedFiles (Shared ℕ)) (d : Dispatcher (Handler ℕ (Args ℕ ℕ) (Reply ℕ ℕ)))
    (impl : RpcImplementation) (memory : CharStruct) (array : IsArray memory) (name_ : List ℕ)
    (word : IsText name_) where
  abbrev pub SequenceInDir : List ℕ → ConfigurationManager → Type 0
  SequenceInDir =
      InDir files d (bindings impl) memory array name_ word (λ n. n) 0 (λ c. c.memory_allocated)

  -- Two servers of a sequence with the same name and different numbers start on one machine. Both
  -- constructors succeed, and the value of the first is still in its segment; but the file is that
  -- of the second. So the constructor of a client of the first succeeds too, with a null pointer for
  -- the value. It is asked that the path fits into its array and the file has room.
  pub second_server-hides :
      (dir : List ℕ) (first second client : ConfigurationManager) (f1 f2 f : d.Table) (t : files.T)
      → SequenceInDir dir first
      → SequenceInDir dir second
      → SequenceInDir dir client
      → first.is_server ≡ true
      → second.is_server ≡ true
      → client.is_server ≡ false
      → client.server_on_node ≡ true
      → client.my_server ≡ first.my_server
      → second.my_server ≢ first.my_server
      → 2 ≤ files.capacity 65536
      → (t1 t2 : files.T) × (x1 x2 : Object files × d.Table) × (o : Object files) × (construct files
            d impl memory first name_ f1 t
          ≡ some (t1, x1))
        × (construct files d impl memory second name_ f2 t1 ≡ some (t2, x2))
        × (construct files d impl memory client name_ f t2 ≡ some (t2, (o, f)))
        × (o.members.data_pointer ≡ none)
        × (p : files.Segment × List ℕ) × (x1.0.members.data_pointer ≡ some p)
        × (files.find p.0 p.1 t2 ≡ some (container 0))
  unfolding construct
  second_server-hides dir first second client f1 f2 f t in1 in2 in3 server1 server2 is_client near
        own differ room =
      let size : ConfigurationManager → ℕ = λ c. c.memory_allocated in
      let starts =
        server-Anew files d (bindings impl) memory array name_ word (λ n. n) 0 size dir in
      let (t1, x1, run1, (s, _, there, _, _, pointer, _), _, _) =
        starts first f1 t in1 server1 room (numbered-mtx name_ first.my_server) in
      let (t2, x2, run2, _, bare, (_, stay)) =
        starts second f2 t1 in2 server2 room (numbered-mtx name_ second.my_server) in
      let name = numbered name_ client.my_server in
      let (m, attached, null) =
        attach-Bare files (λ n. n) 0 (plain_path dir name_) (numbered name_ second.my_server) name
          t2 bare (numbered-apart name_ second.my_server client.my_server (λ e. differ (e ∙ own)))
          (str_eq_comm (codes "mtx") name ∙ numbered-mtx name_ client.my_server) in
      let (o, run, same) =
        client-attached files d (bindings impl) memory array name_ word (λ n. n) 0 size dir client f
          t2 m in3 is_client near attached in
      (
        t1,
        t2,
        x1,
        x2,
        o,
        run1,
        run2,
        run,
        rw same null,
        (s, numbered name_ first.my_server),
        pointer,
        stay s (numbered name_ first.my_server) (container 0) there,
      )
