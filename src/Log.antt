-- ===== src/Log.antt =====
-- lsylar/src/Log.cc and lsylar/include/Log.h: events, the format language of `Formatter`, the level
-- filter of `Logger::log`, and `sp_file`, which shortens `__FILE__`. Text is a byte string. What a
-- stream prints for a `uint64_t` is the argument `decimal`. `none` is undefined behaviour.
pub mod Format
pub mod Output
mod Tests
use solutions.Base.{
  ℕ, zero, suc, ◌+◌, ◌-◌, ◌*◌, ◌/◌, ◌%◌, ◌^◌, Bool, true, false, ◌||◌, Option, none, some, List, [],
  ◌∷◌, ◌++◌, ◌==◌, leb, ltb, if◌then◌else◌, length, get_elem?, replicate, take, drop, Bytes, codes,
  same, fmap, ◌>>=◌,
}
use solutions.FilePath.{substr, names, slash}

-- `LogLevel::Level`, with the names that `operator<<` of EnumReflection.h prints.
pub data Level : Type 0 where
  fatal error warn info debug : Level

pub rank : Level → ℕ
rank fatal = 0
rank error = 1
rank warn = 2
rank info = 3
rank debug = 4

pub level_text : Level → Bytes
level_text fatal = codes "FATAL"
level_text error = codes "ERROR"
level_text warn = codes "WARN_"
level_text info = codes "INFO_"
level_text debug = codes "DEBUG"

-- `Event`; `text` is what has been written to its stream.
pub record Event : Type 0 where
  pub logger_name : Bytes
  pub level : Level
  pub line : ℕ
  pub file : Bytes
  pub func_name : Bytes
  pub text : Bytes

abbrev pub fmt_size : ℕ
fmt_size = 56

-- `Event::getMessage`.
pub get_message : Event → Bytes
get_message e = e.text ++ replicate (fmt_size * (length e.text / fmt_size + 1) - length e.text) b' '

-- The classes derived from `FormatItem`.
pub data ItemClass : Type 0 where
  level_item tab_item new_line_item message_item file_name_item : ItemClass
  string_item line_item logger_name_item function_name_item space_item : ItemClass

pub record FormatItem : Type 0 where
  pub class : ItemClass
  pub pattern : Bytes

-- `s_str_item_mapper`, in the order of the source.
abbrev pub mapper : List (Bytes × ItemClass)
mapper =
    (codes "l", level_item)
    ∷ (codes "tab", tab_item)
    ∷ (codes "nl", new_line_item)
    ∷ (codes "m", message_item)
    ∷ (codes "fn", file_name_item)
    ∷ (codes "s", string_item)
    ∷ (codes "ln", line_item)
    ∷ (codes "lm", logger_name_item)
    ∷ (codes "func", function_name_item)
    ∷ (codes "sp", space_item)
    ∷ []

-- `std::map::find`.
pub find_key : List (Bytes × ItemClass) → Bytes → Option ItemClass
find_key [] k = none
find_key ((k', c) ∷ m) k = if same k' k then some c else find_key m k

-- `std::string::find_first_of` of one byte.
pub find_first_of : ℕ → Bytes → Option ℕ
find_first_of c [] = none
find_first_of c (x ∷ s) = if x == c then some 0 else fmap suc (find_first_of c s)

abbrev pub size_t_mod : ℕ
size_t_mod = 2 ^ 64

-- The key and the text between the braces of a pattern, from the positions of the two braces. The
-- length of the text is a `size_t`.
pub split_braces : Option ℕ → Option ℕ → Bytes → Bytes × Bytes
split_braces (some l) (some r) s =
    (take l s, substr s (suc l) ((r + size_t_mod - suc l) % size_t_mod))
split_braces (some l) none s = (s, [])
split_braces none r s = (s, [])

-- The item of a pattern; an unknown key has none.
pub item_of : Bytes → Option FormatItem
item_of p =
    let (key, fmt) = split_braces (find_first_of b'{' p) (find_first_of b'}' p) p in
    fmap (λ c. record { class = c; pattern = fmt }) (find_key mapper key)

abbrev pub push_back : Option FormatItem → List FormatItem → List FormatItem
push_back none rest = rest
push_back (some it) rest = it ∷ rest

-- The last loop of `Formatter::initFormatItem`.
pub items_of : List Bytes → List FormatItem
items_of [] = []
items_of (p ∷ ps) = push_back (item_of p) (items_of ps)

abbrev pub is_blank : ℕ → Bool
is_blank c = c == 32 || (c == 9 || (c == 10 || c == 13))

-- The loop over `m_format`: the format without blanks, `i` bytes of which are already there, and the
-- positions of the separators in it.
pub scan_format : ℕ → Bytes → Bytes × List ℕ
scan_format i [] = ([], [])
scan_format i (c ∷ s) =
    let rest = scan_format (if is_blank c then i else suc i) s in
    if is_blank c then rest else (c ∷ rest.0, if c == slash then i ∷ rest.1 else rest.1)

-- The loop over `split_ins`, which is that of `Path::getdirs`: what stands before the first separator
-- is dropped.
pub after_first : Bytes → List ℕ → List Bytes
after_first pure_format [] = []
after_first pure_format (s ∷ ends) = names pure_format (suc s) ends

-- `none` is a format with 2 ^ 31 bytes or more that are no blanks: the positions are kept as `int`s, which
-- do not hold them, and what the code makes of it is left out.
pub patterns : Bytes → Option (List Bytes)
patterns format =
    let (pure_format, ins) = scan_format 0 format in
    if leb (2 ^ 31) (length pure_format)
    then none
    else some (after_first pure_format (ins ++ length pure_format ∷ []))

pub record Formatter : Type 0 where
  pub format : Bytes
  pub items : List FormatItem

-- `Formatter::initFormatItem`: the items are added behind those that are there.
pub init_format_item : Formatter → Option Formatter
init_format_item f = fmap (λ ps. record f { items = f.items ++ items_of ps }) (patterns f.format)

-- `Formatter::Formatter`.
pub new_formatter : Bytes → Option Formatter
new_formatter format = init_format_item (record { format = format; items = [] })

-- `Formatter::resetFormat`.
pub reset_format : Bytes → Formatter → Option Formatter
reset_format format f = init_format_item (record f { format = format })

pub data Sink : Type 0 where
  stdout : Sink
  file : Bytes → Sink

pub record Appandar : Type 0 where
  pub level : Level
  pub sink : Sink

-- `StdoutAppandar::appand` and `FileAppandar::appand`: the lines that go to the standard output.
pub appand : Sink → Bytes → List Bytes
appand stdout s = s ∷ []
appand (file name) s = []

pub record Logger : Type 0 where
  pub name : Bytes
  pub appandars : List Appandar
  pub def_formatter : Formatter

module _ (decimal : ℕ → Bytes) where
  -- `FormatItem::format` of each class.
  pub format_item : ItemClass → Bytes → Event → Bytes
  format_item level_item pattern e = level_text e.level
  format_item tab_item pattern e = 9 ∷ []
  format_item new_line_item pattern e = 10 ∷ []
  format_item message_item pattern e = get_message e
  format_item file_name_item pattern e = e.file
  format_item string_item pattern e = pattern
  format_item line_item pattern e = decimal e.line
  format_item logger_name_item pattern e = e.logger_name
  format_item function_name_item pattern e = e.func_name
  format_item space_item pattern e = b' ' ∷ []

  -- The loop of `Formatter::generate`.
  pub format_items : List FormatItem → Event → Bytes
  format_items [] e = []
  format_items (it ∷ its) e = format_item it.class it.pattern e ++ format_items its e

  -- `Formatter::generate`.
  pub generate : Formatter → Event → Bytes
  generate f e = format_items f.items e

  -- The loop of `Logger::log` over its appandars.
  pub log_to : List Appandar → Formatter → Event → List Bytes
  log_to [] f e = []
  log_to (a ∷ rest) f e =
      (if leb (rank e.level) (rank a.level) then appand a.sink (generate f e) else [])
      ++ log_to rest f e

  -- `Logger::log`: the lines that it writes to the standard output.
  pub log : Logger → Event → List Bytes
  log lg e = elim lg.appandars [
    | [] ↦ generate lg.def_formatter e ∷ []
    | (a ∷ rest) ↦ log_to (a ∷ rest) lg.def_formatter e
  ]

-- `find_char`: the positions of `c` in the bytes from index `i` on.
pub find_char : ℕ → ℕ → Bytes → List ℕ
find_char c i [] = []
find_char c i (x ∷ s) = if x == c then i ∷ find_char c (suc i) s else find_char c (suc i) s

-- `sp_file`.
pub sp_file : Bytes → Option Bytes
sp_file file_name = do
  let sps = find_char slash 0 file_name
  let nsp = if ltb 2 (length sps) then 2 else length sps
  k ← get_elem? sps (length sps - nsp)
  some (drop (k + 1) file_name)
