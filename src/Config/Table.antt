-- ===== src/Config/Table.antt =====
-- The table of `Config::LookUp`.
use solutions.Base.{
  ℕ, ◌≡◌, refl, ap, sym, inl, inr, Option, none, some, [], length, get_elem?, get_elem?-append,
  get_elem?-end, Bytes, codes, same, same_refl, same→eq, Bool-cases, if◌then◌else◌,
}
use mathlib.Core.Option.{some-injective}
use solutions.Config.{Types, ConfigVar, Config, new_config, new_var, find_data, look_up, look_up_at}

module _ (ts : Types) where
  -- Every name of the table has its variable.
  abbrev pub IsTable : Config ts → Type 0
  IsTable k =
      (name : Bytes) (p : ℕ)
      → find_data ts name k.datas ≡ some p
      → (v : ConfigVar ts) × (get_elem? k.vars p ≡ some v) × (v.name ≡ name)

  -- What is found in a table with one more variable.
  added-IsTable :
      (name : Bytes) (c : ts.Code) (val : ts.Value c) (k : Config ts)
      → IsTable k
      → IsTable (look_up_at ts none name c val k).1
  unfolding look_up_at find_data
  added-IsTable name c val k t other p e =
      let found : (if same other name then some (length k.vars) else find_data ts other k.datas)
          ≡ some p =
        e in
      elim (Bool-cases (same other name)) [
        | inl x ↦
            let here : length k.vars ≡ p = some-injective (length k.vars) p (rw x at found) in
            (
              new_var ts name c val (codes "for test"),
              rw (← here) (get_elem?-end k.vars _ []),
              sym (same→eq other name x),
            )
        | inr x ↦
            let (v, at, n) = t other p (rw x at found) in (v, get_elem?-append k.vars _ p at, n)
      ]

  look_up_at_lem :
      (name : Bytes) (c : ts.Code) (val : ts.Value c) (k : Config ts) (o : Option ℕ)
      → IsTable k
      → find_data ts name k.datas ≡ o
      → let (p, k') = look_up_at ts o name c val k in
        (find_data ts name k'.datas ≡ some p) × IsTable k'
  unfolding look_up_at
  look_up_at_lem name c val k (some p) t e = (e, t)
  look_up_at_lem name c val k none t e =
      (unfold find_data in rw (same_refl name) refl, added-IsTable name c val k t)

  -- `LookUp` of any name, in a table whose names have their variables: the result is a variable of that
  -- name, a second `LookUp` of the name gives the same one and changes nothing, whatever its type,
  -- default value and description are, and the names of the table again have their variables.
  pub look_up-look_up :
      (name : Bytes) (c c₂ : ts.Code) (val : ts.Value c) (val₂ : ts.Value c₂) (desc desc₂ : Bytes)
      → (k : Config ts) → IsTable k
      → let (p, k') = look_up ts name c val desc k in
        ((v : ConfigVar ts) × (get_elem? k'.vars p ≡ some v) × (v.name ≡ name))
        × (look_up ts name c₂ val₂ desc₂ k' ≡ (p, k'))
        × IsTable k'
  unfolding look_up look_up_at
  look_up-look_up name c c₂ val val₂ desc desc₂ k t =
      let (p, k') = look_up ts name c val desc k in
      let (found, t') = look_up_at_lem name c val k (find_data ts name k.datas) t refl in
      (t' name p found, ap (λ o. look_up_at ts o name c₂ val₂ k') found, t')

  pub new_config-IsTable : IsTable (new_config ts)
  unfolding find_data
  new_config-IsTable name p e = absurd (cc e)
