-- ===== src/WhatIf.antt =====
-- Trades that were passed on: whatif/tracker.py.
pub mod Summary
use trading_strands.Prelude.{
  ℕ, String, Bool, true, false, Option, none, some, List, [], ◌∷◌, ◌++◌, ◌==◌, if◌then◌else◌, map,
  length,
}
use trading_strands.Prelude.Int.{ℤ, ◌+ℤ◌, ◌-ℤ◌, ltb_ℤ, eqb_ℤ}
use trading_strands.Prelude.Dict.{Dict, get}
use trading_strands.Decimal.{Decimals, zero_ℤ}

pub data CounterfactualStatus : Type 0 where
  opened closed : CounterfactualStatus

pub record CounterfactualEntry : Type 0 where
  pub bot_id : String
  pub symbol : String
  pub action : String
  pub quantity : ℤ
  pub price_at_decision : ℤ
  pub current_price : ℤ
  pub rationale : String
  pub status : CounterfactualStatus

pub record TakenAction : Type 0 where
  pub bot_id : String
  pub symbol : String
  pub action : String
  pub quantity : ℤ
  pub price : ℤ
  pub rationale : String

pub record WhatIfTracker : Type 0 where
  pub entries : List CounterfactualEntry
  pub taken_actions : List TakenAction

abbrev pub new_tracker : WhatIfTracker
new_tracker = record { entries = []; taken_actions = [] }

-- `model_post_init`
unfoldable pub init_entry : CounterfactualEntry → CounterfactualEntry
init_entry e =
    if eqb_ℤ e.current_price zero_ℤ then record e { current_price = e.price_at_decision } else e

unfoldable pub record_passed :
    WhatIfTracker → String → String → String → ℤ → ℤ → String → WhatIfTracker
unfolding init_entry
record_passed t bot_id symbol action quantity price_at_decision rationale = record t {
  entries =
      t.entries
      ++ init_entry (record {
        bot_id = bot_id;
        symbol = symbol;
        action = action;
        quantity = quantity;
        price_at_decision = price_at_decision;
        current_price = zero_ℤ;
        rationale = rationale;
        status = opened;
      })
        ∷ [];
}

unfoldable pub record_taken :
    WhatIfTracker → String → String → String → ℤ → ℤ → String → WhatIfTracker
record_taken t bot_id symbol action quantity price rationale = record t {
  taken_actions =
      t.taken_actions
      ++ record {
        bot_id = bot_id;
        symbol = symbol;
        action = action;
        quantity = quantity;
        price = price;
        rationale = rationale;
      }
        ∷ [];
}

abbrev pub is_open : CounterfactualStatus → Bool
is_open opened = true
is_open closed = false

-- the body of the loop of `mark_to_market`
unfoldable pub mark_entry : Dict ℤ → CounterfactualEntry → CounterfactualEntry
mark_entry prices e =
    if is_open e.status
    then elim (get prices e.symbol) [ none ↦ e | some p ↦ record e { current_price = p } ]
    else e

unfoldable pub mark_entries : Dict ℤ → List CounterfactualEntry → List CounterfactualEntry
unfolding mark_entry
mark_entries prices [] = []
mark_entries prices (e ∷ es) = mark_entry prices e ∷ mark_entries prices es

unfoldable pub mark_to_market : WhatIfTracker → Dict ℤ → WhatIfTracker
unfolding mark_entries
mark_to_market t prices = record t { entries = mark_entries prices t.entries }

-- the list comprehension of `entries_for_bot`
unfoldable pub select_bot : String → List CounterfactualEntry → List CounterfactualEntry
select_bot bot_id [] = []
select_bot bot_id (e ∷ es) =
    let rest = select_bot bot_id es in if e.bot_id == bot_id then e ∷ rest else rest

unfoldable pub entries_for_bot : WhatIfTracker → String → List CounterfactualEntry
unfolding select_bot
entries_for_bot t bot_id = select_bot bot_id t.entries

-- an entry's result, in a summary
pub record Missed : Type 0 where
  pub symbol : String
  pub pnl : ℤ
  pub rationale : String

pub record WhatIfSummary : Type 0 where
  pub total_entries : ℕ
  pub total_unrealized_pnl : ℤ
  pub best_missed : Option Missed
  pub worst_missed : Option Missed

module _ ⦃D : Decimals⦄ where
  unfoldable pub unrealized_pnl : CounterfactualEntry → ℤ
  unrealized_pnl e =
      if e.action == "buy"
      then D.mul (e.current_price -ℤ e.price_at_decision) e.quantity
      else D.mul (e.price_at_decision -ℤ e.current_price) e.quantity

  -- `sum(...)`
  unfoldable pub sum_pnl : ℤ → List CounterfactualEntry → ℤ
  sum_pnl acc [] = acc
  sum_pnl acc (e ∷ es) = sum_pnl (acc +ℤ unrealized_pnl e) es

  -- `max(..., key=...)` and `min(..., key=...)`: the first of the entries that are equally far out
  unfoldable pub best_of : CounterfactualEntry → List CounterfactualEntry → CounterfactualEntry
  best_of best [] = best
  best_of best (e ∷ es) =
      best_of (if ltb_ℤ (unrealized_pnl best) (unrealized_pnl e) then e else best) es

  unfoldable pub worst_of : CounterfactualEntry → List CounterfactualEntry → CounterfactualEntry
  worst_of worst [] = worst
  worst_of worst (e ∷ es) =
      worst_of (if ltb_ℤ (unrealized_pnl e) (unrealized_pnl worst) then e else worst) es

  unfoldable pub missed : CounterfactualEntry → Missed
  missed e = record { symbol = e.symbol; pnl = unrealized_pnl e; rationale = e.rationale }

  unfoldable pub summarize : List CounterfactualEntry → WhatIfSummary
  unfolding missed best_of worst_of sum_pnl
  summarize [] = record {
    total_entries = 0;
    total_unrealized_pnl = zero_ℤ;
    best_missed = none;
    worst_missed = none;
  }
  summarize (e ∷ es) = record {
    total_entries = length (e ∷ es);
    total_unrealized_pnl = sum_pnl zero_ℤ (e ∷ es);
    best_missed = some (missed (best_of e es));
    worst_missed = some (missed (worst_of e es));
  }

  unfoldable pub summary : WhatIfTracker → WhatIfSummary
  unfolding summarize
  summary t = summarize t.entries
