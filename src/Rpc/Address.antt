-- ===== src/Rpc/Address.antt =====
-- The addresses of Thallium: the one that a server starts its engine with (`engine_init_str` of `RPC::RPC`,
-- src/basket/communication/rpc_lib.cpp), and the one that a caller looks up (`lookup_str` of `RPC::call`,
-- include/basket/communication/rpc_lib.cpp).
use mathlib.Core.List.{append_cancel_left, append_cancel_right}
use basket.Prelude.{
  true, leb, ◌&&◌, ◌-◌, ◌*◌, ℕ, zero, suc, ◌+◌, ◌/◌, ◌%◌, ◌^◌, ◌<◌, ◌≤◌, ◌≡◌, ◌↔◌, refl, ap, sym,
  subst, ◌∙◌, arith, ltb, if◌then◌else◌, inl, inr, List, [], ◌∷◌, ◌++◌, Option, none, some,
  get_elem?, length, Bool-cases, false, ◌==◌, ◌>>=◌, codes, length-append,
}
use basket.CharStruct.Defs.{c_str, CharStruct, text, of_chars, of_string, add}
use basket.CharStruct.Text.{IsArray, IsValid, IsText, Stores, stored, of_string-Stores, add-Stores}
use basket.Config.Defs.{digits}
use basket.Rpc.Cluster.{RpcImplementation, rpclib, thallium_tcp, thallium_roce}
use basket.Rpc.Ports.{Port, plus, minus, port, thallium_low}

-- `std::to_string`: the decimal digits, with as many rounds as the number itself is large, and more
-- than it has digits.
unfoldable pub decimal_loop : ℕ → ℕ → List ℕ → List ℕ
decimal_loop zero n later = later
decimal_loop (suc rounds) n later =
    let rest = decimal_loop rounds (n / 10) ((48 + n % 10) ∷ later) in
    if ltb n 10 then (48 + n) ∷ later else rest

unfoldable pub to_string : Port → List ℕ
unfolding decimal_loop
to_string (plus n) = decimal_loop (suc n) n []
to_string (minus n) = 45 ∷ decimal_loop (suc n) n []

-- The members of the configuration that an address is made of.
pub record Transport : Type 0 where
  pub tcp_conf : CharStruct
  pub verbs_conf : CharStruct
  pub verbs_domain : CharStruct

-- `memory` is what new objects find in their arrays.
module _ (memory : CharStruct) where
  -- `a + b`
  unfoldable pub join : Option CharStruct → Option CharStruct → Option CharStruct
  join a b = a >>= λ x. b >>= λ y. add memory x y

  -- With rpclib the text is not set.
  unfoldable pub engine_init_str :
      RpcImplementation → Transport → List CharStruct → ℕ → ℕ → ℕ → Option CharStruct
  unfolding join to_string
  engine_init_str rpclib c server_list mpi_rank server_port my_server = some memory
  engine_init_str thallium_tcp c server_list mpi_rank server_port my_server =
      join
        (join
          (join (join (some c.tcp_conf) (of_chars memory (codes "://")))
            (get_elem? server_list mpi_rank))
          (of_chars memory (codes ":")))
        (of_string memory (to_string (plus (server_port + my_server))))
  engine_init_str thallium_roce c server_list mpi_rank server_port my_server =
      join
        (join
          (join
            (join
              (join (join (some c.verbs_conf) (of_chars memory (codes "://")))
                (some c.verbs_domain))
              (of_chars memory (codes "://")))
            (get_elem? server_list mpi_rank))
          (of_chars memory (codes ":")))
        (of_string memory (to_string (plus (server_port + my_server))))

  -- `resolve` is `gethostbyname` with `inet_ntoa`: the address of a name. It is `none` for a name without
  -- one, where the code goes through a null pointer. With rpclib the client takes the name, and no text
  -- is made.
  unfoldable pub lookup_str :
      (List ℕ → Option (List ℕ))
      → RpcImplementation
      → Transport
      → List CharStruct
      → ℕ
      → ℕ
      → Option CharStruct
  unfolding join to_string
  lookup_str resolve rpclib c server_list server_index server_port = none
  lookup_str resolve thallium_tcp c server_list server_index server_port = do
    name ← get_elem? server_list server_index
    ip ← resolve (text name)
    join
        (join (join (join (some c.tcp_conf) (of_chars memory (codes "://"))) (of_string memory ip))
          (of_chars memory (codes ":")))
        (of_string memory (to_string (port server_port server_index)))
  lookup_str resolve thallium_roce c server_list server_index server_port = do
    name ← get_elem? server_list server_index
    ip ← resolve (text name)
    join
        (join
          (join (join (some c.verbs_conf) (of_chars memory (codes "://"))) (of_string memory ip))
          (of_chars memory (codes ":")))
        (of_string memory (to_string (port server_port server_index)))

digits-decimal_loop :
    (rounds n : ℕ) (later : List ℕ)
    → n < rounds
    → digits 0 (decimal_loop rounds n later) ≡ digits n later
unfolding decimal_loop digits
digits-decimal_loop zero n later lt = absurd (omega (arith, lt))
digits-decimal_loop (suc rounds) n later lt = elim (Bool-cases (ltb n 10)) [
  | inl last ↦
      let small : n < 10 = ground (arith, last) in
      let digit : (leb 48 (48 + n) && leb (48 + n) 57) ≡ true = ground (arith, small) in
      let read : 0 * 10 + (48 + n - 48) ≡ n = omega arith in
      rw (last, digit) (ap (λ x. digits x later) read)
  | inr more ↦
      let large : 10 < n + 1 = ground (arith, more) in
      let digit : (leb 48 (48 + n % 10) && leb (48 + n % 10) 57) ≡ true = ground arith in
      let sum : n / 10 * 10 + (48 + n % 10 - 48) ≡ n = omega arith in
      rw
        (
          more,
          digits-decimal_loop rounds (n / 10) ((48 + n % 10) ∷ later) (omega (arith, lt, large)),
          digit,
          sum,
        )
        refl
]

-- The decimal loop of `to_string`, with as many rounds as the number and one more, ends with all
-- digits: read as a decimal number, the text of a number gives it back.
pub digits-to_string : (n : ℕ) → digits 0 (to_string (plus n)) ≡ n
unfolding to_string digits
digits-to_string n = digits-decimal_loop (suc n) n [] (omega arith)

-- The text of an address.
abbrev pub address : List ℕ → List ℕ → List ℕ → List ℕ
address conf host p = (((conf ++ codes "://") ++ host) ++ codes ":") ++ p

length-address : (conf host p : List ℕ) → length host ≤ length (address conf host p)
length-address conf host p =
    let s1 = conf ++ codes "://" in
    let s2 = s1 ++ host in
    omega (
      arith,
      length-append s1 host,
      length-append s2 (codes ":"),
      length-append (s2 ++ codes ":") p,
    )

-- Two addresses differ only where their hosts do.
address-host : (conf x y p : List ℕ) → address conf x p ≡ address conf y p → x ≡ y
address-host conf x y p e =
    let s1 = conf ++ codes "://" in
    append_cancel_left s1 x y (
      append_cancel_right (s1 ++ x) (s1 ++ y) (codes ":")
        (append_cancel_right ((s1 ++ x) ++ codes ":") ((s1 ++ y) ++ codes ":") p e))

-- A new object is valid and has the text `s`.
abbrev pub Holds : Option CharStruct → List ℕ → Type 0
Holds o s = (c : CharStruct) × (o ≡ some c) × IsValid c × (text c ≡ s)

decimal_loop-IsText :
    (rounds n : ℕ) (later : List ℕ) → IsText later → IsText (decimal_loop rounds n later)
unfolding decimal_loop c_str
decimal_loop-IsText zero n later h = h
decimal_loop-IsText (suc rounds) n later h = elim (Bool-cases (ltb n 10)) [
  | inl last ↦ let digit : ((48 + n) == 0) ≡ false = ground arith in rw (last, digit, h) refl
  | inr more ↦
      let digit : ((48 + n % 10) == 0) ≡ false = ground arith in
      rw more (decimal_loop-IsText rounds (n / 10) ((48 + n % 10) ∷ later) (rw (digit, h) refl))
]

pub to_string-IsText : (n : ℕ) → IsText (to_string (plus n))
unfolding to_string c_str
to_string-IsText n = decimal_loop-IsText (suc n) n [] refl

module _ (memory : CharStruct) (array : IsArray memory) where
  pub of_string-Holds : (s : List ℕ) → IsText s → length s < 256 → Holds (of_string memory s) s
  of_string-Holds s plain fits =
      stored (of_string memory s) s fits
        (subst (Stores (of_string memory s)) plain (of_string-Stores memory s array))

  pub join-Holds :
      (a b : Option CharStruct) (s t : List ℕ)
      → Holds a s
      → Holds b t
      → length (s ++ t) < 256
      → Holds (join memory a b) (s ++ t)
  unfolding join
  join-Holds a b s t (x, is_x, valid_x, text_x) (y, is_y, valid_y, text_y) fits =
      rw (is_x, is_y)
        (stored (add memory x y) (s ++ t) fits (
          subst (Stores (add memory x y)) (ap (λ u. u ++ text y) text_x ∙ ap (λ u. s ++ u) text_y)
            (add-Stores memory x y [] array valid_x.0).0))

  address-Holds :
      (conf : CharStruct) (o : Option CharStruct) (host p : List ℕ)
      → IsValid conf
      → Holds o host
      → IsText p
      → length (address (text conf) host p) < 256
      → Holds
          (join memory
            (join memory
              (join memory (join memory (some conf) (of_chars memory (codes "://"))) o)
              (of_chars memory (codes ":")))
            (of_string memory p))
          (address (text conf) host p)
  unfolding of_string
  address-Holds conf o host p valid held plain fits =
      let s1 = text conf ++ codes "://" in
      let s2 = s1 ++ host in
      let s3 = s2 ++ codes ":" in
      let l1 = length-append s1 host in
      let l2 = length-append s2 (codes ":") in
      let l3 = length-append s3 p in
      join-Holds _ _ s3 p
        (join-Holds _ _ s2 (codes ":")
          (join-Holds _ _ s1 host
            (join-Holds _ _ (text conf) (codes "://") (conf, refl, valid, refl)
              (of_string-Holds (codes "://") refl (omega arith)) (omega (arith, fits, l1, l2, l3)))
            held (omega (arith, fits, l2, l3)))
          (of_string-Holds (codes ":") refl (omega arith)) (omega (arith, fits, l3)))
        (of_string-Holds p plain (omega (arith, fits, l3))) fits

  -- With Thallium over TCP, where the name at the server's number in the list resolves, the addresses of
  -- at most 255 bytes are made of valid texts, and the port is below 2 ^ 15: the address that a caller looks up for a server is the one that the server
  -- started with, exactly if the name at the server's number in the list resolves to the text at the
  -- server's MPI rank in the list.
  pub lookup_str-engine_init_str :
      (resolve : List ℕ → Option (List ℕ)) (c : Transport) (server_list : List CharStruct)
      (mpi_rank my_server server_port : ℕ) (name own : CharStruct) (host : List ℕ)
      → IsValid c.tcp_conf
      → get_elem? server_list my_server ≡ some name
      → get_elem? server_list mpi_rank ≡ some own
      → IsValid own
      → resolve (text name) ≡ some host
      → IsText host
      → server_port + my_server < 2 ^ 15
      → length (address (text c.tcp_conf) host (to_string (plus (server_port + my_server)))) < 256
      → length (address (text c.tcp_conf) (text own) (to_string (plus (server_port + my_server))))
        < 256
      → (looked_up started : CharStruct) × (lookup_str memory resolve thallium_tcp c server_list
            my_server server_port
          ≡ some looked_up)
        × (engine_init_str memory thallium_tcp c server_list mpi_rank server_port my_server
            ≡ some started)
        × ((text looked_up ≡ text started) ↔ (host ≡ text own))
  unfolding lookup_str engine_init_str
  lookup_str-engine_init_str resolve c server_list rank i p name own host conf at at' valid
        found_host plain low fits fits' =
      let digits = to_string (plus (p + i)) in
      let (looked_up, found, _, text1) =
        address-Holds c.tcp_conf (of_string memory host) host digits conf
          (of_string-Holds host plain
            (omega (arith, fits, length-address (text c.tcp_conf) host digits)))
          (to_string-IsText (p + i)) fits in
      let (started, start, _, text2) =
        address-Holds c.tcp_conf (some own) (text own) digits conf (own, refl, valid, refl)
          (to_string-IsText (p + i)) fits' in
      (
        looked_up,
        started,
        rw (at, found_host, thallium_low p i low) found,
        rw at' start,
        (
          (λ e. address-host (text c.tcp_conf) host (text own) digits (sym text1 ∙ e ∙ text2)),
          (λ e. text1 ∙ ap (λ x. address (text c.tcp_conf) x digits) e ∙ sym text2),
        ),
      )
