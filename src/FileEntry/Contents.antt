-- ===== src/FileEntry/Contents.antt =====
-- What is written to a file, and read of it.
use solutions.Base.{Bool-cases, inl, inr, inr, inl, Bool-cases, ℕ, some, ◌==◌, if◌then◌else◌}
use solutions.FileEntry.{nothing, Last, append, Entry}

-- An entry that was opened with "a+", and what a write and a read make of it.
abbrev fresh : Entry → Entry
fresh e = record e {
  stream = some (record { path = e.path.ori_path; mode = append; at = 0; last = nothing });
}

abbrev used : ℕ → ℕ → Last → Entry → Entry
used pos at last e = record e {
  pos = if pos == 0 then e.pos else pos;
  stream = some (record { path = e.path.ori_path; mode = append; at = at; last = last });
}
