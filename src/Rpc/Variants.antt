-- ===== src/Rpc/Variants.antt =====
-- `RPC::callWithTimeout` and `RPC::async_call` (include/basket/communication/rpc_lib.cpp), next to `RPC::call`.
-- No container uses them.
use basket.Prelude.{ℕ, Bool, if◌then◌else◌, none}
use basket.Rpc.Names.{Name, Dispatcher}
use basket.Rpc.Cluster.{
  Handler, Action, call, RpcImplementation, rpclib, thallium_tcp, thallium_roce,
}

module _ {S Args Reply : Type 0} (d : Dispatcher (Handler S Args Reply)) where
  -- `in_time` says whether the answer comes within the timeout, which only the client of rpclib is
  -- given; a late answer is an exception. `SERVER_LIST[server_index]` is not checked, and out of range it
  -- is undefined, where `call` has an exception: both are `none`.
  unfoldable pub call_with_timeout : RpcImplementation → Bool → ℕ → Name → Args → Action d Reply
  unfolding call
  call_with_timeout rpclib in_time i name args nodes =
      if in_time then call d i name args nodes else none
  call_with_timeout thallium_tcp in_time i name args nodes = call d i name args nodes
  call_with_timeout thallium_roce in_time i name args nodes = call d i name args nodes

  -- What the future of the call gives. With Thallium the function ends without a `return`.
  unfoldable pub async_call : RpcImplementation → ℕ → Name → Args → Action d Reply
  unfolding call
  async_call rpclib i name args nodes = call d i name args nodes
  async_call thallium_tcp i name args nodes = none
  async_call thallium_roce i name args nodes = none
