-- ===== src/Trans.antt =====
-- lib/trans: the states of an endpoint and the matching of requests and responses.
pub mod Endpoint
pub mod Rpc
pub mod RpcLaws
pub mod RpcState
pub mod RpcInFlight
pub mod RpcCalls
pub mod RpcHistory
pub mod Tests
