-- ===== src/Rpc/Factory/Objects.antt =====
-- The objects that `RPCFactory::GetRPC` hands out.
use mathlib.Core.Option.{some-injective}
use basket.Prelude.{
  ◌>>=◌, ℕ, ◌≡◌, refl, ap, sym, ◌∙◌, true, false, Bool, inl, inr, List, [], ◌∷◌, ◌++◌, Option, some,
  get_elem?, length, Option-cases,
}
use basket.CharStruct.Defs.{CharStruct}
use basket.Config.Defs.{read_servers}
use basket.Rpc.Cluster.{RpcImplementation, rpclib, thallium_tcp, thallium_roce}
use basket.Rpc.Address.{engine_init_str}
use basket.Rpc.Factory.Defs.{
  Settings, Rpc, Program, find, emplace_all, start_engine, start, construct,
}

-- The map of the factory leads from each port to an object with that port.
abbrev pub IsValid : Program → Type 0
IsValid s =
    (p made : ℕ)
    → find p s.rpcs ≡ some made
    → (rpc : Rpc) × (get_elem? s.objects made ≡ some rpc) × (rpc.server_port ≡ p)

pub get_elem?-append :
    {A : Type 0} (xs ys : List A) (i : ℕ) (x : A)
    → get_elem? xs i ≡ some x
    → get_elem? (xs ++ ys) i ≡ some x
get_elem?-append [] ys i x h = cc
get_elem?-append (z ∷ xs) ys ℕ.zero x h = h
get_elem?-append (z ∷ xs) ys (ℕ.suc i) x h = get_elem?-append xs ys i x h

pub get_elem?-last :
    {A : Type 0} (xs : List A) (x : A) → get_elem? (xs ++ x ∷ []) (length xs) ≡ some x
get_elem?-last [] x = refl
get_elem?-last (z ∷ xs) x = get_elem?-last xs x

module _ (memory : CharStruct) where
  -- What the constructor leaves alone.
  abbrev pub Keeps : Program → Program → Type 0
  Keeps s after = (after.objects ≡ s.objects) × (after.rpcs ≡ s.rpcs)

  ends-Keeps :
      {X : Type 0} (s : Program) (r r' : Program × X)
      → some r ≡ some r'
      → Keeps s r.0
      → Keeps s r'.0
  ends-Keeps s r r' e keeps =
      let same : r.0 ≡ r'.0 = ap (λ x. x.0) (some-injective r r' e) in
      (ap (λ t. t.objects) (sym same) ∙ keeps.0, ap (λ t. t.rpcs) (sym same) ∙ keeps.1)

  start-Keeps :
      (server : Bool) (impl : RpcImplementation) (s after : Program) (x : Option ℕ × Option ℕ)
      → start memory server impl s ≡ some (after, x)
      → Keeps s after
  unfolding start start_engine
  start-Keeps true rpclib s after x e = ends-Keeps s _ (after, x) e (refl, refl)
  start-Keeps true thallium_tcp s after x e =
      let c = s.conf in
      let init =
        engine_init_str memory thallium_tcp c.transport c.server_list c.mpi_rank c.rpc_port
          c.my_server in
      elim (Option-cases init) [
        | inl none_made ↦ cc (rw none_made at e)
        | inr (text_, made) ↦ ends-Keeps s _ (after, x) (rw made at e) (refl, refl)
      ]
  start-Keeps true thallium_roce s after x e =
      let c = s.conf in
      let init =
        engine_init_str memory thallium_roce c.transport c.server_list c.mpi_rank c.rpc_port
          c.my_server in
      elim (Option-cases init) [
        | inl none_made ↦ cc (rw none_made at e)
        | inr (text_, made) ↦ ends-Keeps s _ (after, x) (rw made at e) (refl, refl)
      ]
  start-Keeps false rpclib s after x e = ends-Keeps s _ (after, x) e (refl, refl)
  start-Keeps false thallium_tcp s after x e = ends-Keeps s _ (after, x) e (refl, refl)
  start-Keeps false thallium_roce s after x e = ends-Keeps s _ (after, x) e (refl, refl)

  module _ (lines : List (List ℕ)) where
    pub construct-Keeps :
        (s after : Program) (rpc : Rpc)
        → construct memory lines s ≡ some (after, rpc)
        → Keeps s after × (rpc.server_port ≡ s.conf.rpc_port)
    unfolding construct
    construct-Keeps s after rpc e =
        elim (Option-cases ((read_servers lines >>= emplace_all memory))) [
          | inl none_made ↦ cc (rw none_made at e)
          | inr (list, loaded) ↦
              let conf : Settings = record s.conf {
                server_list = list;
                num_servers = length list;
              } in
              let began =
                start memory conf.is_server conf.rpc_implementation (record s { conf = conf }) in
              elim (Option-cases began) [
                | inl none_made ↦ cc (rw (loaded, none_made) at e)
                | inr (r, run) ↦
                    let ended = rw (loaded, run) at e in
                    (
                      ends-Keeps s _ (after, rpc) ended (start-Keeps _ _ _ r.0 r.1 run),
                      ap (λ x. x.1.server_port) (sym (some-injective _ _ ended)),
                    )
              ]
        ]
