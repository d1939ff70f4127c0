-- ===== src/Rpc/Ports.antt =====
-- The ports: the one that a server listens on (`RPC::RPC` of src/basket/communication/rpc_lib.cpp) and
-- the one that a caller computes for it (`RPC::call` of include/basket/communication/rpc_lib.cpp).
use basket.Prelude.{
  ℕ, ◌+◌, ◌-◌, ◌%◌, ◌^◌, ◌<◌, ◌≡◌, ◌↔◌, refl, ap, Bool, true, false, if◌then◌else◌, ltb, ◌||◌,
  arith, Bool-cases, inl, inr,
}
use basket.Rpc.Cluster.{RpcImplementation, rpclib, thallium_tcp, thallium_roce}

-- A number with a sign, as `std::to_string` prints it.
pub data Port : Type 0 where
  plus : ℕ → Port
  minus : ℕ → Port

abbrev pub magnitude : Port → ℕ
magnitude (plus n) = n
magnitude (minus n) = n

-- `int16_t port = server_port + server_index;`
unfoldable pub port : ℕ → ℕ → Port
port server_port server_index =
    let bits = (server_port + server_index) % 2 ^ 16 in
    if ltb bits (2 ^ 15) then plus bits else minus (2 ^ 16 - bits)

-- The `uint16_t` parameter of `rpc::client`.
abbrev pub to_uint16 : Port → ℕ
to_uint16 (plus n) = n % 2 ^ 16
to_uint16 (minus n) = (2 ^ 16 - n % 2 ^ 16) % 2 ^ 16

-- Where the caller connects: rpclib takes the number, and the address of Thallium its decimal text.
unfoldable pub call_port : RpcImplementation → ℕ → ℕ → Port
unfolding port
call_port rpclib server_port server_index = plus (to_uint16 (port server_port server_index))
call_port thallium_tcp server_port server_index = port server_port server_index
call_port thallium_roce server_port server_index = port server_port server_index

-- Where the server listens: `server_port + MY_SERVER` in an `int`, which `rpc::server` takes as a
-- `uint16_t`, and Thallium as its decimal text.
unfoldable pub listen_port : RpcImplementation → ℕ → ℕ → Port
listen_port rpclib server_port my_server = plus ((server_port + my_server) % 2 ^ 16)
listen_port thallium_tcp server_port my_server = plus (server_port + my_server)
listen_port thallium_roce server_port my_server = plus (server_port + my_server)

abbrev pub is_rpclib : RpcImplementation → Bool
is_rpclib rpclib = true
is_rpclib thallium_tcp = false
is_rpclib thallium_roce = false

abbrev pub is_plus : Port → Bool
is_plus (plus n) = true
is_plus (minus n) = false

rpclib_ports : (p i : ℕ) → to_uint16 (port p i) ≡ (p + i) % 2 ^ 16
unfolding port
rpclib_ports p i = elim (Bool-cases (ltb ((p + i) % 2 ^ 16) (2 ^ 15))) [
  | inl low ↦ rw low (omega arith)
  | inr high ↦
      let above : 2 ^ 15 < (p + i) % 2 ^ 16 + 1 = ground arith in rw high (omega (arith, above))
]

pub thallium_low : (p i : ℕ) → p + i < 2 ^ 15 → port p i ≡ plus (p + i)
unfolding port
thallium_low p i h =
    let same : (p + i) % 2 ^ 16 ≡ p + i = omega (arith, h) in
    let low : ltb (p + i) (2 ^ 15) ≡ true = ground arith in rw (same, low)

thallium_agree : (p i : ℕ) → port p i ≡ plus (p + i) → p + i < 2 ^ 15
unfolding port
thallium_agree p i e = elim (Bool-cases (ltb ((p + i) % 2 ^ 16) (2 ^ 15))) [
  | inl low ↦
      let same : (p + i) % 2 ^ 16 ≡ p + i = ap magnitude (rw low at e) in ground (arith, same)
  | inr high ↦ let differ : false ≡ true = ap is_plus (rw high at e) in cc
]

thallium_iff : (p i : ℕ) → (port p i ≡ plus (p + i)) ↔ (ltb (p + i) (2 ^ 15) ≡ true)
thallium_iff p i = (
  (λ e. let lt : p + i < 2 ^ 15 = thallium_agree p i e in ground (arith, lt)),
  (λ h. thallium_low p i (ground (arith, h))),
)

-- A caller connects to the port that the server listens on, under rpclib for all ports and server
-- numbers, and under Thallium exactly if their sum is below 2 ^ 15.
pub ports_iff :
    (impl : RpcImplementation) (server_port server : ℕ)
    → (call_port impl server_port server ≡ listen_port impl server_port server)
      ↔ ((is_rpclib impl || ltb (server_port + server) (2 ^ 15)) ≡ true)
unfolding call_port listen_port
ports_iff rpclib p i = ((λ e. refl), (λ h. ap plus (rpclib_ports p i)))
ports_iff thallium_tcp p i = thallium_iff p i
ports_iff thallium_roce p i = thallium_iff p i
