-- ===== src/Config/Tests.antt =====
-- The variable of test_Config.cc.
use solutions.Base.{ℕ, zero, suc, ◌≡◌, refl, some, none, [], ◌∷◌, Bytes, codes, get_elem?}
use solutions.Config.{
  Types, ConfigVar, new_config, new_var, look_up, look_up_at, find_data, var_text, set_val,
}
use solutions.Config.Table.{IsTable, new_config-IsTable, look_up-look_up}

data TypeName : Type 0 where
  int string : TypeName

abbrev ValueOf : TypeName → Type 0
ValueOf int = ℕ
ValueOf string = Bytes

-- A number is printed as that many strokes.
abbrev show : (c : TypeName) → ValueOf c → Bytes
show int n = strokes n
  where
    strokes : ℕ → Bytes
    strokes zero = []
    strokes (suc n) = b'|' ∷ strokes n
show string s = s

abbrev types : Types
types = record { Code = TypeName; Value = ValueOf; to_string = show }

look_up-look_up_example :
    let (p, k) = look_up types (codes "port") int 8080 (codes "ipv4 port") (new_config types) in
    ((v : ConfigVar types) × (get_elem? k.vars p ≡ some v) × (v.name ≡ codes "port"))
    × (look_up types (codes "port") string (codes "80") (codes "other") k ≡ (p, k))
    × IsTable types k
look_up-look_up_example =
    look_up-look_up types (codes "port") int string 8080 (codes "80") (codes "ipv4 port")
      (codes "other") (new_config types) (new_config-IsTable types)

-- The text of the value, and the description that was given for another.
text_of_port :
    (let (p, k) = look_up types (codes "n") int 3 (codes "three") (new_config types) in
      var_text types p k)
    ≡ some (codes "|||")
unfolding look_up look_up_at find_data var_text
text_of_port = refl

-- A variable that `LookUp` made cannot be set.
not_set : set_val types (new_var types (codes "port") int 8080 (codes "for test")) 80 ≡ none
unfolding set_val
not_set = refl
