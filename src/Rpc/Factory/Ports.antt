-- ===== src/Rpc/Factory/Ports.antt =====
-- One RPC object for each port: `RPCFactory::GetRPC`.
use mathlib.Core.Option.{some-injective}
use basket.Prelude.{
  ℕ, ◌<◌, ◌≡◌, refl, true, false, Bool, Bool-cases, inl, inr, ◌==◌, ==_refl, ==_iff, List, [], ◌∷◌,
  ◌++◌, Option, none, some, get_elem?, length, Option-cases, All,
}
use basket.CharStruct.Defs.{c_str, CharStruct, of_string}
use basket.CharStruct.Text.{IsArray, stored, of_string-Stores}
use basket.Config.Defs.{read_servers}
use basket.Rpc.Cluster.{RpcImplementation, rpclib, thallium_tcp, thallium_roce}
use basket.Rpc.Factory.Defs.{Settings, Rpc, Program, find, emplace_all, start, construct, get_rpc}
use basket.Rpc.Factory.Objects.{IsValid, construct-Keeps, get_elem?-append, get_elem?-last}

-- The port of an object by its address.
abbrev pub HasPort : Program → ℕ → ℕ → Type 0
HasPort s made p = (rpc : Rpc) × (get_elem? s.objects made ≡ some rpc) × (rpc.server_port ≡ p)

module _ (memory : CharStruct) (lines : List (List ℕ)) where
  get_rpc-found :
      (p made : ℕ) (s : Program)
      → find p s.rpcs ≡ some made
      → get_rpc memory lines p s ≡ some (s, made)
  unfolding get_rpc
  get_rpc-found p made s found = rw (found, get_rpc) refl

  -- The program after an object has been made.
  abbrev pub entered : ℕ → ℕ → Program × Rpc → Program
  entered p temp r = record r.0 {
    conf = record r.0.conf { rpc_port = temp };
    objects = r.0.objects ++ r.1 ∷ [];
    rpcs = (p, length r.0.objects) ∷ r.0.rpcs;
  }

  abbrev pub asked : ℕ → Program → Program
  asked p s = record s { conf = record s.conf { rpc_port = p } }

  pub get_rpc-made :
      (p : ℕ) (s : Program) (r : Program × Rpc)
      → find p s.rpcs ≡ none
      → construct memory lines (asked p s) ≡ some r
      → get_rpc memory lines p s ≡ some (entered p s.conf.rpc_port r, length r.0.objects)
  unfolding get_rpc
  get_rpc-made p s r absent run = rw (absent, get_rpc) (rw run refl)

  find-entered : (p made : ℕ) (rs : List (ℕ × ℕ)) → find p ((p, made) ∷ rs) ≡ some made
  unfolding find
  find-entered p made rs = rw (==_refl p) refl

  entered-IsValid :
      (p : ℕ) (s : Program) (r : Program × Rpc)
      → IsValid s
      → construct memory lines (asked p s) ≡ some r
      → IsValid (entered p s.conf.rpc_port r)
        × HasPort (entered p s.conf.rpc_port r) (length r.0.objects) p
  unfolding find
  entered-IsValid p s r valid run =
      let ((objects, rpcs), port) = construct-Keeps memory lines (asked p s) r.0 r.1 run in
      let last : HasPort (entered p s.conf.rpc_port r) (length r.0.objects) p =
        (r.1, get_elem?-last r.0.objects r.1, port) in
      (
        λ q made found. elim (Bool-cases (p == q)) [
          | inl same ↦
              let e : p ≡ q = (==_iff p q).0 same in
              let m : length r.0.objects ≡ made = some-injective _ _ (rw same at found) in
              rw (← e, ← m) last
          | inr other ↦
              let old : find q r.0.rpcs ≡ some made = rw other at found in
              let (rpc, at, its_port) = valid q made (rw (← rpcs) old) in
              (rpc, get_elem?-append r.0.objects (r.1 ∷ []) made rpc (rw objects at), its_port)
        ],
        last,
      )

  -- The server list fits into the arrays of its names.
  emplace_all-total :
      (names : List (List ℕ))
      → IsArray memory
      → All (λ n. length (c_str n) < 256) names
      → (list : List CharStruct) × (emplace_all memory names ≡ some list)
  unfolding emplace_all
  emplace_all-total [] array fits = ([], refl)
  emplace_all-total (n ∷ names) array fits =
      let (c, made, _, _) =
        stored (of_string memory n) (c_str n) fits.0 (of_string-Stores memory n array) in
      let (list, rest) = emplace_all-total names array fits.1 in (c ∷ list, rw (made, rest) refl)

  start-total :
      (server : Bool) (impl : RpcImplementation) (s : Program)
      → impl ≡ rpclib
      → (r : Program × (Option ℕ × Option ℕ)) × (start memory server impl s ≡ some r)
  unfolding start
  start-total true rpclib s e = (_, refl)
  start-total false rpclib s e = (_, refl)
  start-total server thallium_tcp s e = cc
  start-total server thallium_roce s e = cc

  construct-total :
      (names : List (List ℕ)) (s : Program)
      → IsArray memory
      → read_servers lines ≡ some names
      → All (λ n. length (c_str n) < 256) names
      → s.conf.rpc_implementation ≡ rpclib
      → (r : Program × Rpc) × (construct memory lines s ≡ some r)
  unfolding construct
  construct-total names s array named fits impl =
      let (list, loaded) = emplace_all-total names array fits in
      let conf : Settings = record s.conf { server_list = list; num_servers = length list } in
      let (r, run) =
        start-total conf.is_server conf.rpc_implementation (record s { conf = conf }) impl in
      let rpc : Rpc = record {
        server_port = s.conf.rpc_port;
        server_list = list;
        rpclib_server = r.1.0;
        thallium_engine = r.1.1;
      } in
      ((r.0, rpc), rw (named, loaded, run) refl)

  -- With rpclib, counts that an `int` holds and host names of at most 255 bytes, `GetRPC` returns an object with the port asked
  -- for, which it makes if there is none yet. The port of the configuration is as before, every port
  -- in the map leads to an object with that port, and the next call for the port returns the same
  -- object and changes nothing.
  pub get_rpc-HasPort :
      (p : ℕ) (names : List (List ℕ)) (s : Program)
      → IsArray memory
      → read_servers lines ≡ some names
      → All (λ n. length (c_str n) < 256) names
      → s.conf.rpc_implementation ≡ rpclib
      → IsValid s
      → (after : Program) × (made : ℕ) × (get_rpc memory lines p s ≡ some (after, made))
        × HasPort after made p
        × IsValid after
        × (after.conf.rpc_port ≡ s.conf.rpc_port)
        × (get_rpc memory lines p after ≡ some (after, made))
  get_rpc-HasPort p names s array named fits impl valid = elim (Option-cases (find p s.rpcs)) [
    | inr (made, found) ↦
        let run = get_rpc-found p made s found in
        (s, made, run, valid p made found, valid, refl, run)
    | inl absent ↦
        let (r, run) = construct-total names (asked p s) array named fits impl in
        let (valid', last) = entered-IsValid p s r valid run in
        let made = length r.0.objects in
        (
          entered p s.conf.rpc_port r,
          made,
          get_rpc-made p s r absent run,
          last,
          valid',
          refl,
          get_rpc-found p made (entered p s.conf.rpc_port r) (find-entered p made r.0.rpcs),
        )
  ]
