-- ===== src/CloudWork.antt =====
-- CloudWork/src/ResourceMapper/ResourceMapper.h and ResourceMapper.cc: users and their permissions, and
-- the manager that hands a command to a worker. `Mapper::s_root_dir` has no definition in the source and
-- is the argument `root_dir`. Text is a byte string.
pub mod Schedule
mod Tests
use solutions.Base.{
  ℕ, zero, suc, ◌+◌, ◌-◌, ◌%◌, ◌^◌, ◌≡◌, Bool, true, false, Option, none, some, List, [], ◌∷◌, ◌++◌,
  if◌then◌else◌, length, drop, take, Bytes, codes, same,
}
use solutions.FilePath.{substr}
use solutions.Log.{find_first_of}

-- `Permission::Value`; `common` is its `COM`.
pub data Permission : Type 0 where
  read_only : Permission
  common : Permission
  sup : Permission

pub record User : Type 0 where
  pub name : Bytes
  pub permission : Permission

-- `User::reset_name`.
pub reset_name : Bytes → User
reset_name name = record {
  name = name;
  permission =
      if same name (codes "root")
      then sup
      else if same name (codes "unknown")
      then read_only
      else common;
}

-- The classes derived from `Worker`.
pub data Worker : Type 0 where
  add_worker del_worker get_worker list_worker update_worker error_worker : Worker

-- `working`, which one macro defines for all six: the return code and `ret`.
pub working : Worker → Bytes → ℕ × Bytes
working worker url = (0, codes "Add " ++ url)

-- `s_worker_mapper` after `Manager::InitWorkerMapper`.
pub worker_mapper : List (Bytes × Worker)
worker_mapper =
    (codes "Add", add_worker)
    ∷ (codes "Del", del_worker)
    ∷ (codes "Get", get_worker)
    ∷ (codes "List", list_worker)
    ∷ (codes "Update", update_worker)
    ∷ []

-- `Manager::mapping_worker`: the worker of a command, or an `ErrorWorker`.
pub mapping_worker : List (Bytes × Worker) → Bytes → Worker
mapping_worker [] cmd = error_worker
mapping_worker ((k, w) ∷ m) cmd = if same k cmd then w else mapping_worker m cmd

pub record Manager : Type 0 where
  pub user : User
  pub mapper : List (Bytes × Worker)

-- `Manager::Manager`, which does not use its argument.
pub new_manager : List (Bytes × Worker) → Bytes → Manager
new_manager mapper user_name = record { user = reset_name (codes "unknow"); mapper = mapper }

abbrev pub size_t_mod : ℕ
size_t_mod = 2 ^ 64

-- A position as a `size_t`; npos is the greatest.
abbrev pub position : Option ℕ → ℕ
position (some i) = i
position none = size_t_mod - 1

-- `command.find(" ")`.
pub find_blank : Bytes → ℕ
find_blank command = position (find_first_of b' ' command)

-- The command and the URL that `Manager::schedul` cuts at the first blank.
pub cut : Bytes → Bytes × Bytes
cut command =
    let cmd_end = find_blank command in
    let beg = (cmd_end + 1) % size_t_mod in
    (
      substr command 0 cmd_end,
      substr command beg ((length command + 2 ^ 65 - cmd_end - 1) % size_t_mod),
    )

module _ (root_dir : Bytes) where
  -- `Manager::init_url`.
  pub init_url : Manager → Bytes → Bytes
  init_url m url = root_dir ++ (m.user.name ++ url)

  -- `Manager::schedul`: the worker that it runs, and the result.
  pub schedul : Manager → Bytes → Worker × Bytes
  schedul m command =
      let (cmd, url) = cut command in
      let worker = mapping_worker m.mapper cmd in (worker, (working worker (init_url m url)).1)
