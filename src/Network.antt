-- ===== src/Network.antt =====
-- lib/network: the calls to the server, their replies, and the calls that the server makes.
pub mod Json
pub mod Api
mod Sample
pub mod Rpc
pub mod ServerRpcWrapper
pub mod NetworkCoordinator
pub mod GroupController
pub mod UserController
pub mod MessageController
pub mod CallController
pub mod RtcService
