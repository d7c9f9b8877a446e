-- ===== src/Rpc/Server/Tests.antt =====
-- The server on a fresh reactor, with one client whose descriptor is 5.
use solutions.Base.{
  ◌≢◌, ℕ, ◌≤◌, ◌≡◌, refl, true, some, none, List, [], ◌∷◌, ◌++◌, arith, codes, Bytes, length,
  replicate, pos,
}
use solutions.Reactor.{with_fd, fd, Reactor, get_fd_item, sr_buffer_len}
use solutions.Reactor.Table.{IsReactor}
use solutions.Reactor.Echo.{
  ctl_mod, ctl_del, close, receive, send, edge_in, edge_out, got, took, on_send,
}
use solutions.Socket.{Inet, Address, count, new_address}
use solutions.Rpc.Pool.{
  Pool, Env, Eparg, answered, waiting, enlist, cp_words, c_string, on_answer, answer_round,
}
use solutions.Rpc.Pool.Answers.{events, answer_round-overflow}
use solutions.Rpc.Server.{
  rpc_item, rpc_alloc_block, rpc_alloc_block-IsAllocator, on_rpc_recv, on_udp_recv,
}
use solutions.Rpc.Server.Replies.{reply_sent, on_udp_recv-empty}

abbrev fresh : Reactor
fresh = record {
  listen_epfd = fd 3;
  work_epfd = fd 4;
  fd_item_blocks = rpc_alloc_block true true 0 ∷ [];
  nfd = 0;
}

fresh-IsReactor : IsReactor fresh
fresh-IsReactor = (rpc_alloc_block-IsAllocator 0, tt)

fresh_five : get_fd_item fresh 5 ≡ some rpc_item
unfolding get_fd_item rpc_alloc_block
fresh_five = refl

abbrev inet : Inet
inet = record { inet_addr = λ ip. 1; inet_ntoa = λ n. codes "127.0.0.1"; htons = λ p. p }

abbrev nowhere : Address
nowhere = record { ip = []; port = 0; addr = record { s_addr = 0; sin_port = 0 } }

abbrev env : Env
env = record {
  inet = inet;
  sockname = nowhere;
  opened = fd 7;
  connected = true;
  sent = count 2;
  added = true;
}

abbrev pool : Pool
pool = record {
  context = record {
    epfd = fd 6;
    server_ip = codes "127.0.0.1" ++ replicate 7 0;
    server_port = 9999;
  };
  pending = [];
}

-- Without a zero byte in `server_ip` the IP is read behind the array.
unended : c_string (codes "255.255.255.2555") ≡ none
unfolding c_string
unended = refl

pool_ip : c_string pool.context.server_ip ≡ some (codes "127.0.0.1")
unfolding c_string
pool_ip = refl

-- The server answers "yes", and the client gets the words alone.
reply_sent_example :
    (r₁ r₂ r₃ : Reactor) × (on_rpc_recv env 5 (got (codes "hi")) fresh pool
      ≡ some (
        pos 0,
        r₁,
        enlist env 5 pool,
        [],
        record { from = fd 7; to = new_address inet (codes "127.0.0.1") 9999; bytes = codes "hi" }
            ∷ [],
      ))
    × (on_answer (waiting (fd 7) 5) (answered (codes "yes")) r₁
        ≡ some (r₂, true, ctl_mod r₁.work_epfd (fd 5) edge_out ∷ []))
    × (on_send 5 (took 48) r₂
        ≡ some (pos 0, r₃, send 5 cp_words ∷ ctl_mod r₂.work_epfd (fd 5) edge_in ∷ []))
    × IsReactor r₃
reply_sent_example =
    reply_sent env 5 fresh pool rpc_item fresh-IsReactor fresh_five (codes "127.0.0.1") pool_ip
      (codes "hi") (codes "yes") 47 (λ e. absurd (omega arith)) (omega arith)

abbrev long : Bytes
long = replicate 512 b'a'

abbrev eleven : List (Eparg × Bytes)
eleven = replicate 11 (waiting (fd 7) 5, long)

answer_round-overflow_example : answer_round (events eleven) fresh ≡ none
answer_round-overflow_example =
    answer_round-overflow 5 eleven fresh rpc_item fresh-IsReactor fresh_five
      (
        long_one,
        (
          long_one,
          (
            long_one,
            (
              long_one,
              (
                long_one,
                (long_one, (long_one, (long_one, (long_one, (long_one, (long_one, tt)))))),
              ),
            ),
          ),
        ),
      )
      (omega arith) (omega arith)
  where
    long_one : (◌≡◌ {A = ℕ} 5 5) × (sr_buffer_len ≤ length long)
    long_one = (refl, omega arith)

on_udp_recv-empty_example :
    (r' : Reactor) × (on_udp_recv env 5 (got []) fresh pool
      ≡ some (pos 0, r', pool, ctl_del (fd 4) 5 ∷ close 5 ∷ [], []))
    × IsReactor r'
    × (get_fd_item r' 5 ≡ some (with_fd 0 (receive [] rpc_item)))
    × ((m : ℕ) → m ≢ 5 → get_fd_item r' m ≡ get_fd_item fresh m)
on_udp_recv-empty_example = on_udp_recv-empty env 5 fresh pool rpc_item fresh-IsReactor fresh_five
