-- ===== src/Lib.antt =====
-- Basket: containers that are spread over the servers of an MPI program. Each server keeps its part
-- of a container in a shared memory segment; a caller on the same node works on the segment, and any
-- other caller goes through a remote procedure call.
--
-- The parts of the program, and the files that model them (paths from the repository's root):
--   Rpc           include/basket/communication/rpc_lib.cpp and include/basket/common/macros.h. `Names` is
--                 `RPC::bind` and the table of functions, `Suffixes` the names of several containers in one
--                 table; `Cluster` has the servers, `RPC::call`, the call
--                 wrappers, the choice between the segment and a remote call (`route`, `own`), and the loop
--                 over all servers of `GetAllData` and `Contains` (`gather`); `Hashing` is the server of a
--                 key; `Wire` has what travels in a call; `Ports` the ports, those of
--                 src/basket/communication/rpc_lib.cpp too; `Variants` is `callWithTimeout` and `async_call`;
--                 `Address` the addresses of Thallium; `Singleton` include/basket/common/singleton.h;
--                 `Factory` include/basket/communication/rpc_factory.h with the constructor of `RPC`;
--                 `Serve` and `Gather` have theorems about calls that all containers use.
--   CharStruct    include/basket/common/data_structures.h: the text in a fixed array that names, addresses and
--                 keys are kept in, and its messages.
--   Container     what the code takes from boost and std, as interfaces with the laws that their
--                 documentation states, and the loops over it that the containers share.
--   Store         the contract of a key-value container, on one server and on all of them together.
--   Map           include/basket/map: `basket::map`.
--   Multimap      include/basket/multimap: `basket::multimap`.
--   Set           include/basket/set: `basket::set`.
--   UnorderedMap  include/basket/unordered_map: `basket::unordered_map`, and in
--                 `Callbacks` its operations with callbacks.
--   Queue         include/basket/queue: `basket::queue`.
--   PriorityQueue include/basket/priority_queue: `basket::priority_queue`.
--   Sequencer     include/basket/sequencer and src/basket/sequencer: `basket::global_sequence`.
--   Clock         include/basket/clock and src/basket/clock: `basket::global_clock`.
--   Segment       the files of the shared memory segments, as the constructors and the destructors of all
--                 containers use them: `Files` is boost::interprocess as an interface, `Defs` the parts that
--                 the constructors share, `Class` what the classes have in common, `Servers` and `Nodes`
--                 several objects on a machine.
--   Config        include/basket/common/configuration_manager.h: the constructor, `LoadServers`, on
--                 the lines of the file, and the default configurations.
--   Prelude       names, lists and options that the other modules share.
--   Tests         the theorems at concrete inputs.
--
-- In each component `Defs` has one definition for each function of the class, under the function's
-- name: `local_put` is `LocalPut`, `put` is `Put`, and `construct` is the constructor on a server,
-- with the functions that it binds in `bindings`. `Objects` has the whole constructor, for servers and
-- clients, with the files and the members, and the destructor; it takes the functions of the RPC object
-- that `GetRPC` returns, and gives them back with those that it binds. A server is a `Node`: its segment
-- and its table of functions. The servers are a list, in the order of the server list. The members of a container
-- object that decide where an operation goes are a `Handle`. An operation is a function from the servers
-- to the servers and its result, or `none`, which stands for an exception (a name that is not
-- bound, a server out of range, a response of another type). An operation of a segment runs under
-- the mutex of the segment, so runs of several callers are sequences of such steps; `LocalSize` of the set
-- and the polls of `LocalWaitForElement` take no mutex, and are single steps that only read.
--
-- Numbers: a server number is a `uint16_t` (`key_int`, and the parameter of `call`), so the theorems ask
-- for at most 2 ^ 16 servers; a sequence number is a `uint64_t`, and the port that a
-- caller computes an `int16_t`. Loops over a container are recursion on
-- its elements, and the loop over the servers counts them. `LocalWaitForElement` polls a queue that others
-- change; it has fuel, a number of polls, and its theorem gives the polls that are enough.
--
-- Several callers of one container are runs: their operations in any order, each from its own place, in
-- `Store.Callers` for the containers with keys and in `Callers` of `Queue` and `PriorityQueue`.
-- `Map.Configured` goes from the server list in the configuration to the servers of a map, and
-- the `Segments` of `Map`, `UnorderedMap` and `Queue` from the files of a machine. The clock has a step
-- relation, in which the clock of any server goes to any time, and callers read.
--
-- A `CharStruct` is its array of bytes. A new object finds arbitrary bytes there, the parameter `memory`.
-- Its operations give `none` for a write behind the array, which the code does not guard against. `Config`,
-- `Rpc.Address`, `Rpc.Factory` and `Segment` keep the bound of the array; the names under which functions
-- are bound are taken as texts, without it. `LoadServers` gives `none` also for a count that an `int` does
-- not hold, where `atoi` is undefined.
--
-- The sequence and the clock name the file of their segment without the server number, so what a caller's
-- pointer leads to is an argument of their operations, and the theorems ask that it leads to the server
-- that is meant, where the pointer is used. In `UnorderedMap.Callbacks` a process has a memory of callbacks
-- by address, and `none` is also a call of a callback that is gone. `Call` has a result and no `return`;
-- what the compiled program does at the end of it, which the language leaves open, is the parameter
-- `beyond`.
--
-- Parameters: `std::hash`, the order of the keys (`std::less`), `Contains` of the multimap's key type, the
-- boost containers, the table of functions of rpclib or Thallium, `MappedType()`, what other callers do to
-- a queue during a poll, what msgpack reads in `SeekFirstN`, the files that can be opened, the mapped files of
-- a machine with their room, and the addresses of host names.
--
-- Not modelled: MPI, whose sizes and ranks are those of the configuration, tracing, timing and the signal
-- handler, the transport below a call, the threads of the servers, the experimental RDMA helpers, which
-- nothing calls, and the operations with callbacks for a `ReturnType` of `void`, which do not compile.
pub mod Prelude
pub mod Rpc
pub mod Container
pub mod Store
pub mod Map
pub mod Set
pub mod Multimap
pub mod UnorderedMap
pub mod Queue
pub mod PriorityQueue
pub mod Sequencer
pub mod CharStruct
pub mod Clock
pub mod Config
pub mod Segment
pub mod Tests
