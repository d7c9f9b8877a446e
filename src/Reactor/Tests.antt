-- ===== src/Reactor/Tests.antt =====
-- Runs of the table on a fresh reactor, and the theorems about it and its listening side there.
use solutions.Base.{none, true, ℕ, suc, ◌≡◌, refl, Option, some, List, [], ◌∷◌, pos, All, arith}
use solutions.Reactor.{
  init_fd_item, fd, Item, Block, Reactor, get_fd_item, init_fd_item, init_reactor,
  alloc_fd_item_block, add_fd,
}
use solutions.Reactor.Blocks.{alloc_fd_item_block-IsAllocator}
use solutions.Reactor.Table.{IsReactor, Added, add_fd-Added}
use solutions.Reactor.Echo.{Call}
use solutions.Reactor.Listen.{listen_round, listen_round-IsReactor}

abbrev alloc : ℕ → Option Block
alloc = alloc_fd_item_block true true

abbrev blank : Reactor
blank = record { listen_epfd = fd 0; work_epfd = fd 0; fd_item_blocks = []; nfd = 0 }

abbrev fresh : Reactor
fresh = record { listen_epfd = fd 3; work_epfd = fd 4; fd_item_blocks = alloc 0 ∷ []; nfd = 0 }

init_runs : init_reactor alloc (fd 3) (fd 4) blank ≡ (pos 0, fresh)
unfolding init_reactor
init_runs = refl

fresh-IsReactor : IsReactor fresh
fresh-IsReactor = (alloc_fd_item_block-IsAllocator 0, tt)

add_fd-Added_example :
    (r' : Reactor) × (add_fd alloc fresh (fd 2050) ≡ some (pos 0, r')) × Added fresh 2050 r'
add_fd-Added_example = add_fd-Added alloc alloc_fd_item_block-IsAllocator fresh 2050 fresh-IsReactor

fresh_five : get_fd_item fresh 5 ≡ some init_fd_item
unfolding get_fd_item alloc_fd_item_block
fresh_five = refl

listen_round-IsReactor_example :
    (r' : Reactor) × (calls : List Call) × (listen_round alloc
        (λ cb n r. none)
        ((5, fd 9) ∷ [])
        fresh
      ≡ some (r', calls))
    × IsReactor r'
    × All (λ (e : ℕ × ℕ). (it : Item) × (get_fd_item r' (suc e.1) ≡ some it)) ((5, 8) ∷ [])
    × ((m : ℕ)
        → ((it : Item) × (get_fd_item fresh m ≡ some it))
        → (it : Item) × (get_fd_item r' m ≡ some it))
unfolding init_fd_item
listen_round-IsReactor_example =
    listen_round-IsReactor alloc alloc_fd_item_block-IsAllocator (λ cb n r. none) ((5, 8) ∷ [])
      fresh fresh-IsReactor
      ((((λ e. absurd (omega (arith, e))), tt), (init_fd_item, fresh_five, refl)), tt)
