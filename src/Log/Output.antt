-- ===== src/Log/Output.antt =====
-- What is written: the padding of messages, the output of a formatter that is reset, the level filter,
-- and the shortened file name.
use solutions.Base.{
  get_elem?-end, ℕ, suc, ◌+◌, ◌-◌, ◌*◌, ◌/◌, ◌%◌, ◌≤◌, ◌≡◌, refl, ap, Bool, true, false, ◌==◌, leb,
  ltb, ◌&&◌, if◌then◌else◌, none, some, List, [], ◌∷◌, ◌++◌, arith, length, length-append,
  length-replicate, replicate, drop, Bytes, Lacks,
}
use solutions.FilePath.{slash}
use solutions.Log.{
  Event, fmt_size, get_message, Formatter, generate, Level, rank, Sink, stdout, file, Appandar,
  appand, Logger, log_to, log, find_char, sp_file,
}

-- `getMessage` is the text followed by at least one and at most 56 blanks, so that its length is a
-- multiple of 56.
pub get_message-padded :
    (e : Event)
    → (k : ℕ) × (get_message e ≡ e.text ++ replicate (suc k) b' ')
      × (suc k ≤ fmt_size)
      × (length (get_message e) % fmt_size ≡ 0)
unfolding get_message
get_message-padded e =
    let n = length e.text in
    let k = fmt_size * (n / fmt_size + 1) - n - 1 in
    let count : fmt_size * (n / fmt_size + 1) - n ≡ suc k = omega arith in
    (
      k,
      ap (λ m. e.text ++ replicate m b' ') count,
      omega arith,
      omega (
        arith,
        length-append e.text (replicate (fmt_size * (n / fmt_size + 1) - n) b' '),
        length-replicate {A = ℕ} (fmt_size * (n / fmt_size + 1) - n) b' ',
      ),
    )

abbrev pub is_stdout : Sink → Bool
is_stdout stdout = true
is_stdout (file name) = false

-- The appandars that write to the standard output and whose level lets the event through.
abbrev pub listeners : List Appandar → Level → ℕ
listeners [] l = 0
listeners (a ∷ rest) l =
    let others = listeners rest l in
    if is_stdout a.sink && leb (rank l) (rank a.level) then suc others else others

appand_lem :
    (s : Sink) (ok : Bool) (line : Bytes) (n : ℕ)
    → (if ok then appand s line else []) ++ replicate n line
      ≡ replicate (if is_stdout s && ok then suc n else n) line
unfolding appand
appand_lem stdout true line n = refl
appand_lem stdout false line n = refl
appand_lem (file name) true line n = refl
appand_lem (file name) false line n = refl

module _ (decimal : ℕ → Bytes) where
  log_to_lem :
      (to : List Appandar) (f : Formatter) (e : Event)
      → log_to decimal to f e ≡ replicate (listeners to e.level) (generate decimal f e)
  unfolding log_to
  log_to_lem [] f e = refl
  log_to_lem (a ∷ rest) f e = rw (log_to_lem rest f e) (
      appand_lem a.sink (leb (rank e.level) (rank a.level)) (generate decimal f e)
        (listeners rest e.level))

  log_with :
      (lg : Logger) (e : Event) (to : List Appandar)
      → lg.appandars ≡ to
      → log decimal lg e
        ≡ replicate
            (if length to == 0 then 1 else listeners to e.level)
            (generate decimal lg.def_formatter e)
  unfolding log
  log_with lg e [] q = rw q refl
  log_with lg e (a ∷ rest) q =
      let some_there : (suc (length rest) == 0) ≡ false = ground arith in
      rw (q, some_there) (log_to_lem (a ∷ rest) lg.def_formatter e)

  -- A logger without appandars writes the line of an event once. One with appandars writes it once for
  -- each that writes to the standard output and whose level is not below that of the event, however
  -- they are ordered.
  pub log_lem :
      (lg : Logger) (e : Event)
      → log decimal lg e
        ≡ replicate
            (if length lg.appandars == 0 then 1 else listeners lg.appandars e.level)
            (generate decimal lg.def_formatter e)
  log_lem lg e = log_with lg e lg.appandars refl

-- The positions in the second part of a text follow those in the first.
find_char-append :
    (c i : ℕ) (s t : Bytes)
    → find_char c i (s ++ t) ≡ find_char c i s ++ find_char c (i + length s) t
unfolding find_char
find_char-append c i [] t = let e : i + 0 ≡ i = omega arith in rw e refl
find_char-append c i (x ∷ s) t =
    let e : i + suc (length s) ≡ suc i + length s = omega arith in
    rw e (ground (arith, find_char-append c (suc i) s t))

find_char-Lacks : (c i : ℕ) (s : Bytes) → Lacks c s → find_char c i s ≡ []
unfolding find_char
find_char-Lacks c i [] h = refl
find_char-Lacks c i (x ∷ s) h = ground (arith, h.0, find_char-Lacks c (suc i) s h.1)

-- Of a name without a `/`, the vector of positions is empty and its first element is read, which is
-- undefined.
pub sp_file-none : (s : Bytes) → Lacks slash s → sp_file s ≡ none
unfolding sp_file
sp_file-none s h = rw (find_char-Lacks slash 0 s h) refl

drop-past : (s : Bytes) (c : ℕ) (t : Bytes) → drop (length s + 1) (s ++ c ∷ t) ≡ t
drop-past s c t = let e : length s + 1 ≡ suc (length s) = omega arith in rw e (past s c t)
  where
    past : (s : Bytes) (c : ℕ) (t : Bytes) → drop (suc (length s)) (s ++ c ∷ t) ≡ t
    past [] c t = refl
    past (x ∷ s) c t = past s c t

positions :
    (dir a b : Bytes)
    → Lacks slash a
    → Lacks slash b
    → (m : ℕ) × (find_char slash 0 (dir ++ slash ∷ (a ++ slash ∷ b))
        ≡ find_char slash 0 dir ++ length dir ∷ m ∷ [])
unfolding find_char
positions dir a b ha hb =
    let n : 0 + length dir ≡ length dir = omega arith in
    (
      suc (length dir) + length a,
      rw
          (
            find_char-append slash 0 dir (slash ∷ (a ++ slash ∷ b)),
            n,
            find_char-append slash (suc (length dir)) a (slash ∷ b),
            find_char-Lacks slash (suc (length dir)) a ha,
            find_char-Lacks slash (suc (suc (length dir) + length a)) b hb,
          )
          refl,
    )

-- Of a name that has a separator before its last directory, the last directory and the file stay.
pub sp_file_lem :
    (dir a b : Bytes)
    → Lacks slash a
    → Lacks slash b
    → sp_file (dir ++ slash ∷ (a ++ slash ∷ b)) ≡ some (a ++ slash ∷ b)
unfolding sp_file
sp_file_lem dir a b ha hb =
    let (m, e) = positions dir a b ha hb in
    let xs = find_char slash 0 dir in
    let n = length-append xs (length dir ∷ m ∷ []) in
    let back : length (xs ++ length dir ∷ m ∷ [])
          - (if ltb 2 (length (xs ++ length dir ∷ m ∷ []))
              then 2
              else length (xs ++ length dir ∷ m ∷ []))
        ≡ length xs =
      ground (arith, n) in
    rw (e, back, get_elem?-end xs (length dir) (m ∷ []))
      (ap some (drop-past dir slash (a ++ slash ∷ b)))
