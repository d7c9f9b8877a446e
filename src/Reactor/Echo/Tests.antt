-- ===== src/Reactor/Echo/Tests.antt =====
-- The echo server's theorems on a fresh reactor.
use mathlib.Core.Path.{subst}
use mathlib.Core.Option.{some-injective}
use solutions.Base.{
  zero, suc, true, suc, ℕ, ◌≡◌, refl, none, some, List, [], ◌∷◌, pos, arith, codes, replicate,
  get_elem?,
}
use solutions.Reactor.{
  fd, Item, Reactor, get_fd_item, item_at, alloc_fd_item_block, init_fd_item, fd_item_block_size,
}
use solutions.Reactor.Blocks.{alloc_fd_item_block-IsAllocator}
use solutions.Reactor.Table.{IsReactor}
use solutions.Reactor.Echo.{
  Call, ctl_mod, send, edge_in, edge_out, Event, got, took, on_recv, on_send, work_round, Others,
}
use solutions.Reactor.Echo.Callbacks.{echo_back}
use solutions.Reactor.Echo.Rounds.{IsServing, IsEcho, work_round-IsServing}

abbrev fresh : Reactor
fresh = record {
  listen_epfd = fd 3;
  work_epfd = fd 4;
  fd_item_blocks = alloc_fd_item_block true true 0 ∷ [];
  nfd = 0;
}

fresh-IsReactor : IsReactor fresh
fresh-IsReactor = (alloc_fd_item_block-IsAllocator 0, tt)

init_fd_item-IsEcho : IsEcho init_fd_item
unfolding init_fd_item
init_fd_item-IsEcho = record { receives = refl; sends = refl; pending = omega arith }

replicate-IsEcho :
    (k i : ℕ) (it : Item) → get_elem? (replicate k init_fd_item) i ≡ some it → IsEcho it
replicate-IsEcho zero i it h = cc
replicate-IsEcho (suc k) zero it h = subst IsEcho (some-injective _ _ h) init_fd_item-IsEcho
replicate-IsEcho (suc k) (suc i) it h = replicate-IsEcho k i it h

fresh_items : (i j : ℕ) (it : Item) → item_at fresh.fd_item_blocks i j ≡ some it → IsEcho it
unfolding item_at alloc_fd_item_block
fresh_items zero j it h = replicate-IsEcho fd_item_block_size j it h
fresh_items (suc i) j it h = cc

fresh-IsServing : IsServing fresh
unfolding get_fd_item
fresh-IsServing = record { reactor = fresh-IsReactor; items = λ n it h. fresh_items _ _ it h }

fresh_five : get_fd_item fresh 5 ≡ some init_fd_item
unfolding get_fd_item alloc_fd_item_block
fresh_five = refl

echo_back_example :
    (r₁ r₂ : Reactor) × (on_recv 5 (got (codes "hi")) fresh
      ≡ some (pos 0, r₁, ctl_mod (fd 4) (fd 5) edge_out ∷ []))
    × (on_send 5 (took 2) r₁
        ≡ some (pos 0, r₂, send 5 (codes "hi") ∷ ctl_mod r₁.work_epfd (fd 5) edge_in ∷ []))
    × IsReactor r₂
echo_back_example =
    echo_back fresh 5 init_fd_item (codes "hi") 1 fresh-IsReactor fresh_five (λ e. cc) (omega arith)

abbrev nothing : Others
nothing cb n r = none

abbrev arrival : Event
arrival = record { event_fd = 5; input = some (got (codes "hi")); output = none }

abbrev both : Event
both = record { event_fd = 5; input = some (got (codes "ho")); output = some (took 2) }

work_round-IsServing_example :
    (r' : Reactor) × (calls : List Call) × (work_round nothing (arrival ∷ both ∷ []) fresh
      ≡ some (r', calls))
    × IsServing r'
work_round-IsServing_example =
    work_round-IsServing nothing (arrival ∷ both ∷ []) fresh fresh-IsServing (
      ((init_fd_item, fresh_five), (λ e. cc, λ e. cc)),
      (((init_fd_item, fresh_five), (λ e. cc, λ e. cc)), tt),
    )
