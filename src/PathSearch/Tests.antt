-- ===== src/PathSearch/Tests.antt =====
-- The search on the graph of the program.
use solutions.Base.{
  get_elem?, ℕ, ◌<◌, ◌≡◌, refl, some, List, [], ◌∷◌, arith, All, Bool, true, false, ◌&&◌, ltb,
}
use solutions.PathSearch.{
  no_this_point, have_end, Point, Side, init_grap, init_p0, init_p1, init_p2, init_p3, init_p4,
  init_p5, init_p6, init_p7, new_point, add_sides, add_side, insert_side, print_tree,
}
use solutions.PathSearch.Trails.{IsGrap, IsPrinted, print_tree-IsPrinted}

abbrev in_range : Side → Bool
in_range [] = true
in_range (s ∷ m) = ltb s.0 8 && in_range m

abbrev all_in_range : List Point → Bool
all_in_range [] = true
all_in_range (p ∷ g) = in_range p.side && all_in_range g

in_range-All : (m : Side) → in_range m ≡ true → All (λ s. s.0 < 8) m
in_range-All [] h = tt
in_range-All (s ∷ m) h = (ground arith, in_range-All m (ground arith))

all_in_range-All : (g : List Point) → all_in_range g ≡ true → All (λ p. All (λ s. s.0 < 8) p.side) g
all_in_range-All [] h = tt
all_in_range-All (p ∷ g) h = (in_range-All p.side (ground arith), all_in_range-All g (ground arith))

init_grap-IsGrap : IsGrap init_grap
unfolding init_grap init_p0 init_p1 init_p2 init_p3 init_p4 init_p5 init_p6 init_p7 new_point
    add_sides add_side insert_side
init_grap-IsGrap = record { count = refl; inside = all_in_range-All init_grap refl }

print_tree-IsPrinted_example :
    (out : List (List ℕ)) × (print_tree init_grap ≡ some out) × All (IsPrinted init_grap 5) out
print_tree-IsPrinted_example = print_tree-IsPrinted init_grap init_grap-IsGrap

-- A path through all eight points, from 5 to 7, and its marks.
abbrev full : List ℕ
full = 1 ∷ 3 ∷ 2 ∷ 6 ∷ 0 ∷ 4 ∷ 5 ∷ []

abbrev marks : List ℕ
marks = 1 ∷ 1 ∷ 1 ∷ 1 ∷ 1 ∷ 0 ∷ 1 ∷ 1 ∷ []

seventh : get_elem? init_grap 7 ≡ some init_p7
unfolding init_grap
seventh = refl

five_is_free : have_end init_p7.side marks ≡ some (some 5)
unfolding have_end init_p7 new_point add_sides add_side insert_side
five_is_free = refl

none_is_new : All (λ x. no_this_point (7 ∷ full) x.0 ≡ false) init_p7.side
unfolding no_this_point init_p7 new_point add_sides add_side insert_side
none_is_new = (refl, (refl, (refl, (refl, (refl, tt)))))
