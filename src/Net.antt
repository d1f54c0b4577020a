-- ===== src/Net.antt =====
-- The modules of arale/net.
pub mod Buffer
pub mod Channel
pub mod Connection
pub mod Http
pub mod Epoll
pub mod Connector
pub mod ThreadPool
pub mod Timers
pub mod Poll
pub mod TcpServer
pub mod TcpClient
pub mod Loop
pub mod LoopThread
pub mod Sockets
pub mod Acceptor
