-- ===== src/Log/Tests.antt =====
-- The log's theorems on the start of the default format, `/s{[}/l/s{]}/sp`.
use solutions.Base.{
  All, some, ℕ, suc, ◌≤◌, ◌≡◌, refl, ◌%◌, ◌++◌, List, [], ◌∷◌, arith, codes, Bytes, length,
  replicate, map,
}
use solutions.FilePath.{render}
use solutions.Log.{
  Event, info, debug, fatal, string_item, level_item, FormatItem, Formatter, new_formatter,
  generate, get_message, fmt_size, stdout, file, Logger, log, rank,
}
use solutions.Log.Format.{spell, new_formatter-spell, IsText}
use solutions.Log.Output.{get_message-padded, log_lem}

abbrev bracketed : List FormatItem
bracketed =
    record { class = string_item; pattern = codes "[" }
    ∷ record { class = level_item; pattern = [] }
    ∷ record { class = string_item; pattern = codes "]" }
    ∷ []

spelled : render (map spell bracketed) ≡ codes "/s{[}/l{}/s{]}"
unfolding render
spelled = refl

bracketed-IsText : All (λ (it : FormatItem). All IsText it.pattern) bracketed
bracketed-IsText = (
  (((λ e. absurd (omega arith), refl), (λ e. absurd (omega arith), λ e. absurd (omega arith))), tt),
  (
    tt,
    (
      (
        ((λ e. absurd (omega arith), refl), (λ e. absurd (omega arith), λ e. absurd (omega arith))),
        tt,
      ),
      tt,
    ),
  ),
)

new_formatter-spell_example :
    new_formatter (codes "/s{[}/l{}/s{]}")
    ≡ some (record { format = codes "/s{[}/l{}/s{]}"; items = bracketed })
unfolding render
new_formatter-spell_example = new_formatter-spell bracketed bracketed-IsText (omega arith)

abbrev hello : Event
hello = record {
  logger_name = codes "ROOT__";
  level = info;
  line = 7;
  file = codes "src/a.cc";
  func_name = codes "main";
  text = codes "hello";
}

get_message-padded_example :
    (k : ℕ) × (get_message hello ≡ codes "hello" ++ replicate (suc k) 32)
    × (suc k ≤ fmt_size)
    × (length (get_message hello) % fmt_size ≡ 0)
get_message-padded_example = get_message-padded hello

abbrev seven : ℕ → Bytes
seven n = codes "7"

abbrev plain : Formatter
plain = record { format = codes "/l"; items = record { class = level_item; pattern = [] } ∷ [] }

abbrev logger : Logger
logger = record {
  name = codes "ROOT__";
  appandars =
      record { level = debug; sink = stdout }
      ∷ record { level = fatal; sink = stdout }
      ∷ record { level = debug; sink = file (codes "log") }
      ∷ [];
  def_formatter = plain;
}

log_lem_example : log seven logger hello ≡ generate seven plain hello ∷ []
unfolding rank
log_lem_example = log_lem seven logger hello
