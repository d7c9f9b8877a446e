-- ===== src/Thread/Tests.antt =====
-- A thread that is constructed, runs its callback and is destroyed.
use solutions.Base.{here, next, ◌≡◌, refl, true, false}
use solutions.Thread.{
  Runner, Owner, gone, finished, Thread, before_create, create, construct, drop, destroy, identify,
  take_cb, release, return_cb, finish, Reach,
}
use solutions.Thread.Handshake.{Reach-gone}

abbrev built_thread : Thread
built_thread = record {
  sem = 0;
  has_thread = true;
  has_id = true;
  has_cb = false;
  owner = Owner.built;
  runner = Runner.calling;
}

path_to_built : Reach before_create built_thread
path_to_built =
    next
      (next (next (next (next here (create refl)) (identify refl)) (take_cb refl)) (release refl))
      (construct 0 refl refl)

abbrev gone_thread : Thread
gone_thread = record built_thread { owner = gone; runner = finished }

path_to_gone : Reach before_create gone_thread
path_to_gone =
    next (next (next (next path_to_built (drop refl)) (return_cb refl)) (finish refl))
      (destroy 0 refl refl)

Reach-gone_example : gone_thread.runner ≡ finished
Reach-gone_example = Reach-gone gone_thread path_to_gone refl
