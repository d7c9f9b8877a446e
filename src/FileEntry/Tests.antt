-- ===== src/FileEntry/Tests.antt =====
-- A log file that is written twice and read.
use solutions.Base.{
  int_of, if◌then◌else◌, ◌≡◌, refl, true, false, some, none, [], ◌∷◌, ◌>>=◌, codes, same, pos,
  negsuc, ◌-◌, ◌^◌,
}
use solutions.FilePath.{slash}
use solutions.FileEntry.{Disk, Entry, append, reopen, write, read, set_pos, get_pos, fwrite, fread}

abbrev log_entry : Entry
log_entry = record {
  stream = none;
  pos = 0;
  path = record {
    dir_split = slash;
    ori_path = codes "log";
    abs_path = codes "/tt/log";
    current_dir = codes "/tt";
    dirs = codes "tt" ∷ codes "log" ∷ [];
    name = codes "log";
  };
  data_of = record { file_path = codes "log"; exit = false };
}

abbrev some_disk : Disk
some_disk q = if same q (codes "log") then some (codes "ab") else none

counts : (int_of 3 ≡ pos 3) × (int_of (2 ^ 32 - 1) ≡ negsuc 0)
counts = (refl, refl)

-- The position 0 does not go to the beginning: a read right behind a write is undefined.
read_behind_write :
    (let (_, e, d) = reopen append true log_entry some_disk in
      write 2 (codes "cd") 0 e d >>= λ (_, e', d'). read 9 9 0 e' d')
    ≡ none
unfolding reopen write read fwrite fread
read_behind_write = refl

-- Any other position does.
read_at_one :
    (let (_, e, d) = reopen append true log_entry some_disk in
      write 2 (codes "cd") 0 e d >>= λ (_, e', d'). read 9 9 1 e' d' >>= λ r. some r.1)
    ≡ some (codes "bcd")
unfolding reopen write read fwrite fread set_pos get_pos
read_at_one = refl
