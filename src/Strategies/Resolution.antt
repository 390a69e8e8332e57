-- ===== src/Strategies/Resolution.antt =====
-- Every saved model can be resolved.
use trading_strands.Prelude.{
  ℕ, String, ◌≡◌, refl, sym, true, ◌&&◌, ◌==◌, some, List, [], ◌∷◌, All, arith, is_some, Bool-cases,
  Option-cases, inl, inr,
}
use trading_strands.Prelude.Dict.{Dict, get, put, remove, has}
use trading_strands.Strategies.Models.{validate_model_id, resolve_model_id}
use trading_strands.Strategies.Store.{
  Strategy, StrategyToolConfig, StrategyTable, FieldUpdate, pk, strategy_id, org_id, author_user_id,
  created_at, name, markdown, capital, model_id, symbols, skills, status, tools, set_field,
  unprotected, models_listed, set_fields, create, update, delete,
}
use trading_strands.Strategies.Rights.{updated, update-none, update-some}

-- the model of the strategy resolves
abbrev pub IsResolved : Strategy → Type 0
IsResolved s = is_some (resolve_model_id s.model_id) ≡ true

-- the models of all strategies of the table do
abbrev pub AreResolved : Dict Strategy → Type 0
AreResolved d = All (λ x. IsResolved x.1) d

validate-resolve : (m : String) → validate_model_id m ≡ true → is_some (resolve_model_id m) ≡ true
unfolding validate_model_id resolve_model_id
validate-resolve m h = elim (Bool-cases (m == "")) [
  | inl y ↦ rw y refl
  | inr n ↦ rw (n, rw n at h) refl
]

put-AreResolved :
    (d : Dict Strategy) (k : String) (s : Strategy)
    → AreResolved d
    → IsResolved s
    → AreResolved (put d k s)
unfolding put
put-AreResolved [] k s h r = (r, tt)
put-AreResolved ((j, x) ∷ d) k s (h, hs) r = elim (Bool-cases (j == k)) [
  | inl y ↦ rw y (r, hs)
  | inr n ↦ rw n (h, put-AreResolved d k s hs r)
]

remove-AreResolved : (d : Dict Strategy) (k : String) → AreResolved d → AreResolved (remove d k)
unfolding remove
remove-AreResolved [] k h = tt
remove-AreResolved ((j, x) ∷ d) k (h, hs) = elim (Bool-cases (j == k)) [
  | inl y ↦ rw y (remove-AreResolved d k hs)
  | inr n ↦ rw n (h, remove-AreResolved d k hs)
]

get-AreResolved :
    (d : Dict Strategy) (k : String) (s : Strategy)
    → AreResolved d
    → get d k ≡ some s
    → IsResolved s
unfolding get
get-AreResolved [] k s h e = absurd (ground (arith, e))
get-AreResolved ((j, x) ∷ d) k s (h, hs) e = elim (Bool-cases (j == k)) [
  | inl y ↦ let same : x ≡ s = ground (arith, e, y) in rw (sym same) h
  | inr n ↦ get-AreResolved d k s hs (rw n at e)
]

set_fields-IsResolved :
    (fs : List FieldUpdate) (s : Strategy)
    → models_listed fs ≡ true
    → IsResolved s
    → IsResolved (set_fields fs s)
unfolding models_listed set_fields set_field
set_fields-IsResolved [] s l h = h
set_fields-IsResolved (model_id v ∷ fs) s l h =
    set_fields-IsResolved fs (record s { model_id = v }) (ground (arith, l))
      (validate-resolve v (ground (arith, l)))
set_fields-IsResolved (pk v ∷ fs) s l h = set_fields-IsResolved fs s l h
set_fields-IsResolved (strategy_id v ∷ fs) s l h =
    set_fields-IsResolved fs (record s { strategy_id = v }) l h
set_fields-IsResolved (org_id v ∷ fs) s l h = set_fields-IsResolved fs (record s { org_id = v }) l h
set_fields-IsResolved (author_user_id v ∷ fs) s l h =
    set_fields-IsResolved fs (record s { author_user_id = v }) l h
set_fields-IsResolved (created_at v ∷ fs) s l h =
    set_fields-IsResolved fs (record s { created_at = v }) l h
set_fields-IsResolved (name v ∷ fs) s l h = set_fields-IsResolved fs (record s { name = v }) l h
set_fields-IsResolved (markdown v ∷ fs) s l h =
    set_fields-IsResolved fs (record s { markdown = v }) l h
set_fields-IsResolved (capital v ∷ fs) s l h =
    set_fields-IsResolved fs (record s { capital = v }) l h
set_fields-IsResolved (symbols v ∷ fs) s l h =
    set_fields-IsResolved fs (record s { symbols = v }) l h
set_fields-IsResolved (skills v ∷ fs) s l h = set_fields-IsResolved fs (record s { skills = v }) l h
set_fields-IsResolved (status v ∷ fs) s l h = set_fields-IsResolved fs (record s { status = v }) l h
set_fields-IsResolved (tools v ∷ fs) s l h = set_fields-IsResolved fs (record s { tools = v }) l h

-- a write of the store
pub data Write : Type 0 where
  create_write :
      String
      → ℕ
      → String
      → String
      → String
      → String
      → List String
      → String
      → Dict StrategyToolConfig
      → List String
      → String
      → Write
  update_write : ℕ → String → List FieldUpdate → Write
  delete_write : String → Write

pub write : Write → StrategyTable → StrategyTable
write (create_write id now org author n text syms funds ts sk m) t =
    (create id now org author n text syms funds ts sk m t).1
write (update_write now id fs) t = (update now id fs t).1
write (delete_write id) t = delete id t

unfoldable pub write_all : List Write → StrategyTable → StrategyTable
write_all [] t = t
write_all (w ∷ ws) t = write_all ws (write w t)

update-AreResolved :
    (now : ℕ) (id : String) (fs : List FieldUpdate) (t : StrategyTable)
    → AreResolved t.strategies
    → AreResolved (update now id fs t).1.strategies
update-AreResolved now id fs t h =
    elim (Bool-cases (models_listed (unprotected fs) && is_some (get t.strategies id))) [
      | inr n ↦ rw (update-none now id fs t n) h
      | inl y ↦ elim (Option-cases (get t.strategies id)) [
        | inl n ↦ absurd (ground (arith, y, n))
        | inr (s, e) ↦
            let l : models_listed (unprotected fs) ≡ true = ground (arith, y) in
            let old = get-AreResolved t.strategies id s h e in
            rw (update-some now id fs t s l e) (
              put-AreResolved t.strategies id (updated now fs s) h
                (set_fields-IsResolved (unprotected fs) (record s { updated_at = now }) l old))
      ]
    ]

create-AreResolved :
    (id : String) (now : ℕ) (org author n text : String) (syms : List String) (funds : String)
    (ts : Dict StrategyToolConfig) (sk : List String) (m : String) (t : StrategyTable)
    → AreResolved t.strategies
    → AreResolved (create id now org author n text syms funds ts sk m t).1.strategies
unfolding create
create-AreResolved id now org author n text syms funds ts sk m t h =
    elim (Bool-cases (validate_model_id m)) [
      | inr b ↦ rw b h
      | inl y ↦ elim (Bool-cases (has t.strategies id)) [
        | inl taken ↦ rw (y, taken) h
        | inr free ↦ rw (y, free) (put-AreResolved t.strategies id _ h (validate-resolve m y))
      ]
    ]

write-AreResolved :
    (w : Write) (t : StrategyTable) → AreResolved t.strategies → AreResolved (write w t).strategies
unfolding write delete
write-AreResolved (create_write id now org author n text syms funds ts sk m) t h =
    create-AreResolved id now org author n text syms funds ts sk m t h
write-AreResolved (update_write now id fs) t h = update-AreResolved now id fs t h
write-AreResolved (delete_write id) t h = remove-AreResolved t.strategies id h

-- Whatever is created, updated and deleted, accepted or refused: if the models of all strategies of a table
-- resolve, they do so afterwards.
write_all-AreResolved :
    (ws : List Write) (t : StrategyTable)
    → AreResolved t.strategies
    → AreResolved (write_all ws t).strategies
unfolding write_all
write_all-AreResolved [] t h = h
write_all-AreResolved (w ∷ ws) t h = write_all-AreResolved ws (write w t) (write-AreResolved w t h)
