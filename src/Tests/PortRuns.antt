-- ===== src/Tests/PortRuns.antt =====
-- The default port, and a server number that takes it past 2 ^ 15.
use basket.Prelude.{◌≡◌, ◌↔◌, true, refl}
use basket.Rpc.Cluster.{rpclib, thallium_tcp}
use basket.Rpc.Ports.{port, call_port, listen_port, plus, minus, ports_iff}

ports_iff_example :
    (call_port thallium_tcp 8080 3 ≡ listen_port thallium_tcp 8080 3) ↔ (true ≡ true)
ports_iff_example = ports_iff thallium_tcp 8080 3

far_port : call_port thallium_tcp 40000 1 ≡ minus 25535
unfolding call_port port
far_port = refl

far_rpclib : call_port rpclib 40000 1 ≡ plus 40001
unfolding call_port port
far_rpclib = refl
