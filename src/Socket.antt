-- ===== src/Socket.antt =====
-- src/net/TCPSocket.h and src/net/TCPSocket.cpp: the connection, as built without GATHER_RECV and
-- USE_SSL (the default of CMakeLists.txt).
pub mod SendList
pub mod Gather
pub mod Memory
pub mod State
pub mod Timeout
pub mod Api
pub mod Worker
pub mod Stream
pub mod Frame
pub mod Delivery
pub mod Protocol
pub mod Working
pub mod WorkerWorking
pub mod System
pub mod PutBack
pub mod Turn
pub mod Swap
pub mod Balance
pub mod Broken
pub mod InOrder
pub mod Closing
pub mod CloseOnFlush
pub mod Ssl
pub mod SslWorker
mod Examples
pub mod Task
