-- ===== src/Base/Relation.antt =====
-- The states that a step relation reaches.
pub data Steps {S : Type 0} (Step : S → S → Type 0) (s : S) : S → Type 0 where
  here : Steps Step s s
  next : {t u : S} → Steps Step s t → Step t u → Steps Step s u
