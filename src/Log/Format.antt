-- ===== src/Log/Format.antt =====
-- The format language: `Formatter::initFormatItem` reads back the items that a format string spells.
use solutions.Base.{
  append-nil, take-length, ℕ, suc, ◌+◌, ◌-◌, ◌%◌, ◌^◌, leb, ◌<◌, ◌≡◌, ◌≢◌, refl, sym, ap, ap₂, ◌∙◌,
  Bool, true, false, not, ◌&&◌, ◌==◌, some, List, [], ◌∷◌, ◌++◌, arith, length, length-append,
  Bytes, codes, All, All-append, Lacks, map, append_assoc,
}
use solutions.FilePath.{render, slash, names, split_ins, substr}
use solutions.FilePath.Split.{names-render}
use solutions.Log.{
  item_of, ItemClass, level_item, tab_item, new_line_item, message_item, file_name_item,
  string_item, line_item, logger_name_item, function_name_item, space_item, FormatItem, mapper,
  find_key, find_first_of, split_braces, items_of, is_blank, scan_format, after_first, patterns,
  size_t_mod, init_format_item, new_formatter,
}

-- The key of a class.
abbrev pub key : ItemClass → Bytes
key level_item = codes "l"
key tab_item = codes "tab"
key new_line_item = codes "nl"
key message_item = codes "m"
key file_name_item = codes "fn"
key string_item = codes "s"
key line_item = codes "ln"
key logger_name_item = codes "lm"
key function_name_item = codes "func"
key space_item = codes "sp"

-- A byte that a key or a literal text may have: none of `/`, `{`, `}` and the blanks.
abbrev pub IsText : ℕ → Type 0
IsText c = ((c ≢ slash) × (is_blank c ≡ false)) × ((c ≢ b'{') × (c ≢ b'}'))

abbrev is_text : ℕ → Bool
is_text c = not (c == slash) && (not (is_blank c) && (not (c == b'{') && not (c == b'}')))

abbrev all_text : Bytes → Bool
all_text [] = true
all_text (c ∷ s) = is_text c && all_text s

is_text-IsText : (c : ℕ) → is_text c ≡ true → IsText c
is_text-IsText c h = ((ground arith, ground arith), (ground arith, ground arith))

all_text-IsText : (s : Bytes) → all_text s ≡ true → All IsText s
all_text-IsText [] h = tt
all_text-IsText (c ∷ s) h = (is_text-IsText c (ground arith), all_text-IsText s (ground arith))

key-all_text : (c : ItemClass) → all_text (key c) ≡ true
key-all_text level_item = refl
key-all_text tab_item = refl
key-all_text new_line_item = refl
key-all_text message_item = refl
key-all_text file_name_item = refl
key-all_text string_item = refl
key-all_text line_item = refl
key-all_text logger_name_item = refl
key-all_text function_name_item = refl
key-all_text space_item = refl

key-IsText : (c : ItemClass) → All IsText (key c)
key-IsText c = all_text-IsText (key c) (key-all_text c)

find_key-key : (c : ItemClass) → find_key mapper (key c) ≡ some c
unfolding find_key
find_key-key level_item = refl
find_key-key tab_item = refl
find_key-key new_line_item = refl
find_key-key message_item = refl
find_key-key file_name_item = refl
find_key-key string_item = refl
find_key-key line_item = refl
find_key-key logger_name_item = refl
find_key-key function_name_item = refl
find_key-key space_item = refl

-- A predicate that every byte has, weakened.
weaken : (P Q : ℕ → Type 0) → ((c : ℕ) → P c → Q c) → (s : Bytes) → All P s → All Q s
weaken P Q f [] h = tt
weaken P Q f (c ∷ s) h = (f c h.0, weaken P Q f s h.1)

pub find_first_of-Lacks :
    (c : ℕ) (s t : Bytes) → Lacks c s → find_first_of c (s ++ c ∷ t) ≡ some (length s)
unfolding find_first_of
find_first_of-Lacks c [] t h = ground arith
find_first_of-Lacks c (x ∷ s) t h = ground (arith, h.0, find_first_of-Lacks c s t h.1)

-- The spelling of an item: its key, and its text in braces.
abbrev pub spell : FormatItem → Bytes
spell it = key it.class ++ b'{' ∷ (it.pattern ++ b'}' ∷ [])

-- A text that can be spelled, and whose length a `size_t` holds.
abbrev pub IsSpelled : FormatItem → Type 0
IsSpelled it = All IsText it.pattern × (length it.pattern < size_t_mod)

substr_span : (k p t : Bytes) → substr (k ++ b'{' ∷ (p ++ t)) (suc (length k)) (length p) ≡ p
substr_span [] p t = take-length p t
substr_span (c ∷ k) p t = substr_span k p t

split_braces-spell :
    (it : FormatItem)
    → IsSpelled it
    → split_braces (find_first_of b'{' (spell it)) (find_first_of b'}' (spell it)) (spell it)
      ≡ (key it.class, it.pattern)
unfolding split_braces
split_braces-spell it (h, small) =
    let k = key it.class in
    let p = it.pattern in
    let t = key-IsText it.class in
    let l = find_first_of-Lacks b'{' k (p ++ b'}' ∷ []) (weaken IsText _ (λ c x. x.1.0) k t) in
    let r = find_first_of-Lacks b'}' (k ++ b'{' ∷ p) [] (
      All-append _ k (b'{' ∷ p) (weaken IsText _ (λ c x. x.1.1) k t)
        (λ e. absurd (omega arith), weaken IsText _ (λ c x. x.1.1) p h)) in
    let width : (length (k ++ b'{' ∷ p) + size_t_mod - suc (length k)) % size_t_mod ≡ length p =
      omega (arith, length-append k (b'{' ∷ p)) in
    let whole = ap (find_first_of b'}') (sym (append_assoc k (b'{' ∷ p) (b'}' ∷ []))) in
    rw (l, whole ∙ r, width)
      (ap₂ (λ a b. (a, b)) (take-length k (b'{' ∷ (p ++ b'}' ∷ []))) (substr_span k p (b'}' ∷ [])))

item_of-spell : (it : FormatItem) → IsSpelled it → item_of (spell it) ≡ some it
unfolding item_of
item_of-spell it h = rw (split_braces-spell it h, find_key-key it.class) refl

items_of-spell : (its : List FormatItem) → All IsSpelled its → items_of (map spell its) ≡ its
unfolding items_of
items_of-spell [] h = refl
items_of-spell (it ∷ its) h = rw (item_of-spell it h.0) (ap (◌∷◌ it) (items_of-spell its h.1))

-- Without blanks, the scan gives the format itself and its separators.
scan_format-text :
    (i : ℕ) (s : Bytes)
    → All (λ c. is_blank c ≡ false) s
    → scan_format i s ≡ (s, split_ins slash i s)
unfolding scan_format split_ins
scan_format-text i [] h = refl
scan_format-text i (c ∷ s) h = rw (h.0, scan_format-text (suc i) s h.1) (ground arith)

-- A byte of a pattern: no separator and no blank.
abbrev pub IsSolid : ℕ → Type 0
IsSolid c = (c ≢ slash) × (is_blank c ≡ false)

render-IsSolid :
    (ps : List Bytes) → All (All IsSolid) ps → All (λ c. is_blank c ≡ false) (render ps)
unfolding render
render-IsSolid [] h = tt
render-IsSolid (d ∷ ds) h =
    (refl, All-append _ d (render ds) (weaken IsSolid _ (λ c x. x.1) d h.0) (render-IsSolid ds h.1))

IsSolid-Lacks : (ps : List Bytes) → All (All IsSolid) ps → All (Lacks slash) ps
IsSolid-Lacks [] h = tt
IsSolid-Lacks (d ∷ ds) h = (weaken IsSolid _ (λ c x. x.0) d h.0, IsSolid-Lacks ds h.1)

-- A format made of patterns without separators and blanks, each behind a separator, is split into
-- these patterns, where it has fewer than 2 ^ 31 bytes.
pub patterns-render :
    (ps : List Bytes)
    → All (All IsSolid) ps
    → length (render ps) < 2 ^ 31
    → patterns (render ps) ≡ some ps
unfolding patterns after_first render names split_ins
patterns-render [] h b = unfold scan_format in refl
patterns-render (d ∷ ds) h b =
    let short : leb (2 ^ 31) (length (render (d ∷ ds))) ≡ false = ground (arith, b) in
    rw (scan_format-text 0 (render (d ∷ ds)) (render-IsSolid (d ∷ ds) h), short)
      (ap some (
        names-render (slash ∷ []) d ds [] _ _ (IsSolid-Lacks (d ∷ ds) h).0
          (IsSolid-Lacks (d ∷ ds) h).1 (rw (append-nil (render ds)) refl) (omega arith)))

spell-IsSolid : (its : List FormatItem) → All IsSpelled its → All (All IsSolid) (map spell its)
spell-IsSolid [] h = tt
spell-IsSolid (it ∷ its) h = (
  All-append IsSolid (key it.class) _
      (weaken IsText IsSolid (λ c x. x.0) (key it.class) (key-IsText it.class))
      (
        (λ e. absurd (omega arith), refl),
        All-append IsSolid it.pattern (b'}' ∷ [])
            (weaken IsText IsSolid (λ c x. x.0) it.pattern h.0.0)
            ((λ e. absurd (omega arith), refl), tt),
      ),
  spell-IsSolid its h.1,
)

-- The texts are no longer than the format.
texts_IsSpelled :
    (its : List FormatItem)
    → All (λ (it : FormatItem). All IsText it.pattern) its
    → length (render (map spell its)) < 2 ^ 31
    → All IsSpelled its
unfolding render
texts_IsSpelled [] t b = tt
texts_IsSpelled (it ∷ its) t b =
    let k = key it.class in
    let whole = length-append (spell it) (render (map spell its)) in
    let front = length-append k (b'{' ∷ (it.pattern ++ b'}' ∷ [])) in
    let text = length-append it.pattern (b'}' ∷ []) in
    ((t.0, omega (arith, b, whole, front, text)), texts_IsSpelled its t.1 (omega (arith, b, whole)))

-- A formatter whose format spells items, each behind a separator as its key with its text in braces,
-- has exactly these items, if their texts are free of `/`, `{`, `}` and blanks and the format has fewer
-- than 2 ^ 31 bytes.
pub new_formatter-spell :
    (its : List FormatItem)
    → All (λ (it : FormatItem). All IsText it.pattern) its
    → length (render (map spell its)) < 2 ^ 31
    → new_formatter (render (map spell its))
      ≡ some (record { format = render (map spell its); items = its })
unfolding new_formatter init_format_item
new_formatter-spell its t b =
    let h = texts_IsSpelled its t b in
    rw (patterns-render (map spell its) (spell-IsSolid its h) b, items_of-spell its h) refl
