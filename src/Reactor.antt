-- ===== src/Reactor.antt =====
-- The reactor library of cpp_server: the task pool (Tasks), the connection (Connection), the channel
-- and the registration with epoll (Channel), in cpp_server/src and cpp_server/include.
pub mod Tasks
pub mod Connection
pub mod Loop
pub mod Server
pub mod Channel
mod Tests
mod Runs
