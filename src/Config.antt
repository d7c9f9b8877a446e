-- ===== src/Config.antt =====
-- lsylar/include/Config.h: `ConfigVar` and `Config::LookUp`. The types that variables have are a parameter,
-- with how a value of each is printed. A pointer is an index of the variables that were made. `none`
-- is an exception.
pub mod Table
mod Tests
use solutions.Base.{
  ℕ, ◌≡◌, Bool, true, false, Option, none, some, List, [], ◌∷◌, ◌++◌, if◌then◌else◌, length,
  get_elem?, set, Bytes, codes, same, ◌>>=◌,
}

-- The types of values, and `ChangeClass<T, std::string>`.
pub record Types : Type 1 where
  pub Code : Type 0
  pub Value : Code → Type 0
  pub to_string : (c : Code) → Value c → Bytes

module _ (ts : Types) where
  -- `ConfigVar<T>`, with whether `m_cb` holds a callback.
  pub record ConfigVar : Type 0 where
    pub name : Bytes
    pub desc : Bytes
    pub code : ts.Code
    pub val : ts.Value code
    pub has_cb : Bool

  -- `Config::s_datas`, and the variables.
  pub record Config : Type 0 where
    pub datas : List (Bytes × ℕ)
    pub vars : List ConfigVar

  abbrev pub new_config : Config
  new_config = record { datas = []; vars = [] }

  -- `ConfigVar::ConfigVar`: the callback stays empty.
  abbrev pub new_var : Bytes → (c : ts.Code) → ts.Value c → Bytes → ConfigVar
  new_var name c val desc = record { name = name; desc = desc; code = c; val = val; has_cb = false }

  -- `s_datas.find`.
  pub find_data : Bytes → List (Bytes × ℕ) → Option ℕ
  find_data name [] = none
  find_data name ((n, p) ∷ ds) =
      let rest = find_data name ds in if same name n then some p else rest

  -- `Config::LookUp`, by what `find` gives: the description is not used.
  pub look_up_at : Option ℕ → Bytes → (c : ts.Code) → ts.Value c → Config → ℕ × Config
  look_up_at (some p) name c val k = (p, k)
  look_up_at none name c val k = (
    length k.vars,
    record {
      datas = (name, length k.vars) ∷ k.datas;
      vars = k.vars ++ new_var name c val (codes "for test") ∷ [];
    },
  )

  pub look_up : Bytes → (c : ts.Code) → ts.Value c → Bytes → Config → ℕ × Config
  look_up name c val desc k = look_up_at (find_data name k.datas) name c val k

  -- `ConfigVar::to_string` of the variable behind a pointer.
  pub var_text : ℕ → Config → Option Bytes
  var_text p k = get_elem? k.vars p >>= λ v. some (ts.to_string v.code v.val)

  -- `ConfigVar::set_val`: a call of an empty callback throws, before the value is set.
  pub set_val : (v : ConfigVar) → ts.Value v.code → Option ConfigVar
  set_val v val = if v.has_cb then some (record v { val = val }) else none
