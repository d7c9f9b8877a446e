-- ===== src/Rpc.antt =====
-- lsylar/src/reqpool.cc (child `Pool`) and lsylar/src/sv_rpcapi.cc (child `Server`) with their headers:
-- a server that passes each message of a client on to another server, and the pool that waits for the
-- answers. The pool's thread writes the answer into the send buffer of the client's item, through a
-- pointer and a reference that the server gave it.
pub mod Pool
pub mod Server
