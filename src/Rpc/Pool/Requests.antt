-- ===== src/Rpc/Pool/Requests.antt =====
-- `asynreq_commit_udp`: what is sent, and what waits for an answer.
use solutions.Base.{ℕ, ◌≡◌, refl, true, ◌&&◌, some, [], ◌∷◌, Bytes, codes}
use solutions.Socket.{Address, new_address, is_count, new_socket, udp}
use solutions.Socket.Failure.{init_udp-bound, opened_socket, transfer-handled}
use solutions.Rpc.Pool.{Pool, Env, enlist, commit_udp, c_string}

-- The address of the server that the pool sends to, where the IP is a text.
abbrev pub server_of : Env → Bytes → Pool → Address
server_of env ip p = new_address env.inet ip p.context.server_port

-- Where `server_ip` has a zero byte, and whatever the system calls return, `asynreq_commit_udp` hands the
-- bytes to `sendto` for the server, once; the argument waits for an answer if `epoll_ctl` succeeds, also
-- where `sendto` or `socket` has failed. The result is true if both `sendto` and `epoll_ctl` succeed.
pub commit_udp-Request :
    (env : Env) (n : ℕ) (bytes ip : Bytes) (p : Pool)
    → c_string p.context.server_ip ≡ some ip
    → commit_udp env n bytes p
      ≡ some (
        is_count env.sent && env.added,
        enlist env n p,
        record { from = env.opened; to = server_of env ip p; bytes = bytes } ∷ [],
      )
unfolding commit_udp
commit_udp-Request env n bytes ip p text =
    let blank = new_address env.inet [] 0 in
    let zero_ip = codes "0.0.0.0" in
    let s₀ = new_socket blank 0 true in
    let s₁ = record (opened_socket env.inet udp env.opened zero_ip 0 s₀) {
      remote_addr = some (server_of env ip p);
    } in
    rw
      (
        text,
        init_udp-bound env.inet env.sockname env.opened true zero_ip 0 s₀,
        transfer-handled env.sent s₁ (server_of env ip p) refl refl,
      )
      refl
