-- ===== src/Fyaml/Tests.antt =====
-- A file of two lines.
use solutions.Base.{
  ◌≡◌, refl, some, none, List, [], ◌∷◌, ◌++◌, ◌-◌, codes, map, length, replicate, arith,
}
use solutions.Fyaml.{
  Line, raise, load_from_file, split_buffer, buffer_size, split_lines, ends_line, put_byte,
  max_level, mapper_size,
}
use solutions.Fyaml.Lines.{render, load_from_file-render}

abbrev conf_file : List Line
conf_file = record { level = 0; conf = codes "a:" } ∷ record { level = 1; conf = codes "b" } ∷ []

load_from_file-render_example :
    load_from_file (render conf_file)
    ≡ some (
        map raise conf_file
        ++ record { level = 1; conf = replicate (buffer_size - length (render conf_file)) 0 } ∷ [])
load_from_file-render_example =
    load_from_file-render conf_file
      (
        (
          (λ e. cc),
          (
            ((λ e. omega (arith, e)), (λ e. omega (arith, e))),
            (((λ e. omega (arith, e)), (λ e. omega (arith, e))), tt),
          ),
        ),
        (((λ e. cc), (((λ e. omega (arith, e)), (λ e. omega (arith, e))), tt)), tt),
      )
      (omega arith)

-- The table of levels reaches to level 2.
mapper_size_runs : mapper_size (map raise conf_file) ≡ 3
unfolding mapper_size max_level
mapper_size_runs = refl

starts_with_newline : split_buffer (codes "\na") ≡ none
unfolding split_buffer
starts_with_newline = refl

blank_line_is_no_line :
    split_buffer (codes "a\n\n\tb")
    ≡ some (record { level = 1; conf = codes "a" } ∷ record { level = 2; conf = codes "b" } ∷ [])
unfolding split_buffer split_lines ends_line put_byte
blank_line_is_no_line = refl
