-- ===== src/PathSearch.antt =====
-- lsylar/src/tct.cc: the graph of eight points and the search that prints the paths through all of
-- them. The vector of points is kept with its back first. `none` is undefined behaviour, an index
-- outside the graph or the array `hp`, or the end of the fuel, which counts the nested calls of `pp`.
-- The paths that `full_print` prints are a list, in order.
pub mod Trails
mod Tests
use solutions.Base.{
  ℕ, zero, suc, ◌+◌, Bool, true, false, not, ◌&&◌, Option, none, some, List, [], ◌∷◌, ◌++◌, ◌==◌,
  ltb, if◌then◌else◌, length, get_elem?, set, replicate, ◌>>=◌,
}

-- `side`, the map from points to weights, by its keys in order.
abbrev pub Side : Type 0
Side = List (ℕ × ℕ)

pub record Point : Type 0 where
  pub number : ℕ
  pub side : Side

-- `std::map::insert`.
pub insert_side : ℕ → ℕ → Side → Side
insert_side n w [] = (n, w) ∷ []
insert_side n w ((k, v) ∷ m) =
    let rest = insert_side n w m in
    if n == k then (k, v) ∷ m else if ltb n k then (n, w) ∷ (k, v) ∷ m else (k, v) ∷ rest

-- `add_side`.
pub add_side : Point → ℕ → ℕ → Point
add_side p point_number weight = record p { side = insert_side point_number weight p.side }

-- A sequence of calls of `add_side` on a point.
pub add_sides : Point → List (ℕ × ℕ) → Point
add_sides p [] = p
add_sides p ((n, w) ∷ rest) = add_sides (add_side p n w) rest

pub new_point : ℕ → List (ℕ × ℕ) → Point
new_point n sides = add_sides (record { number = n; side = [] }) sides

pub init_p0 : Point
init_p0 = new_point 0 ((2, 26) ∷ (4, 38) ∷ (6, 58) ∷ (7, 34) ∷ [])

pub init_p1 : Point
init_p1 = new_point 1 ((2, 36) ∷ (3, 29) ∷ (5, 32) ∷ (7, 19) ∷ [])

pub init_p2 : Point
init_p2 = new_point 2 ((0, 26) ∷ (1, 36) ∷ (3, 29) ∷ (6, 40) ∷ (7, 34) ∷ [])

pub init_p3 : Point
init_p3 = new_point 3 ((1, 29) ∷ (2, 17) ∷ (6, 52) ∷ [])

pub init_p4 : Point
init_p4 = new_point 4 ((0, 38) ∷ (5, 35) ∷ (6, 29) ∷ (7, 37) ∷ [])

pub init_p5 : Point
init_p5 = new_point 5 ((1, 32) ∷ (4, 35) ∷ (7, 37) ∷ [])

pub init_p6 : Point
init_p6 = new_point 6 ((0, 58) ∷ (2, 40) ∷ (3, 52) ∷ (4, 29) ∷ [])

pub init_p7 : Point
init_p7 = new_point 7 ((0, 16) ∷ (1, 19) ∷ (2, 34) ∷ (4, 37) ∷ (5, 26) ∷ [])

-- `init_grap`.
pub init_grap : List Point
init_grap = init_p0 ∷ init_p1 ∷ init_p2 ∷ init_p3 ∷ init_p4 ∷ init_p5 ∷ init_p6 ∷ init_p7 ∷ []

-- `full_print`: what it prints.
pub full_print : List ℕ → List (List ℕ)
full_print vec = if length vec == 8 then vec ∷ [] else []

-- `have_end`: the first neighbour that is not marked; -1 is the inner `none`.
pub have_end : Side → List ℕ → Option (Option ℕ)
have_end [] hp = some none
have_end ((n, w) ∷ rest) hp =
    let later = have_end rest hp in
    (get_elem? hp n >>= λ c. if c == 0 then some (some n) else later)

-- `no_this_point`.
pub no_this_point : List ℕ → ℕ → Bool
no_this_point [] point_num = true
no_this_point (it ∷ vec) point_num =
    let rest = no_this_point vec point_num in if it == point_num then false else rest

-- `hp[i] = c`.
pub mark : List ℕ → ℕ → ℕ → Option (List ℕ)
mark hp i c = if ltb i (length hp) then some (set hp i c) else none

-- The array `hp` when a call returns, and what it has printed.
abbrev pub Printed : Type 0
Printed = Option (List ℕ × List (List ℕ))

-- The loop of `pp` over the sides of the last point; `search` is the recursive call.
pub visit : (List ℕ → List ℕ → Printed) → Side → List ℕ → List ℕ → Printed
visit search [] vec hp = some (hp, [])
visit search ((n, w) ∷ rest) vec hp =
    if no_this_point vec n
    then (do
      hp₁ ← mark hp n 1
      (hp₂, first) ← search (n ∷ vec) hp₁
      hp₃ ← mark hp₂ n 0
      (hp₄, later) ← visit search rest vec hp₃
      some (hp₄, first ++ later))
    else visit search rest vec hp

module _ (g : List Point) where
  -- `pp`.
  pub pp : ℕ → List ℕ → List ℕ → Printed
  pp zero vec hp = none
  pp (suc fuel) [] hp = none
  pp (suc fuel) (e ∷ vec) hp = do
    end_point ← get_elem? g e
    end ← have_end end_point.side hp
    (elim end [
      | none ↦ some (hp, full_print (e ∷ vec))
      | some n ↦ visit (pp fuel) end_point.side (e ∷ vec) hp
    ])

  -- `print_tree`: what it prints. Nine nested calls are enough for eight points.
  pub print_tree : Option (List (List ℕ))
  print_tree = do (hp, printed) ← pp 9 (5 ∷ []) (replicate 8 0); some printed
