-- ===== src/Orchestrator/Model.antt =====
-- The loop of orchestrator/engine.py. What the publisher, the market data, the callbacks of the bots
-- and the brokers answer during a tick is an argument. Logs, metrics, what is published, the store of
-- market data and the texts of the status page, which the loop only writes, are left out.
use trading_strands.Prelude.{
  ℕ, suc, ◌+◌, String, Bool, true, false, not, ◌&&◌, Option, none, some, List, [], ◌∷◌, ◌++◌,
  contains, if◌then◌else◌, length, leb,
}
use trading_strands.Prelude.Int.{ℤ, pos, ◌*ℤ◌}
use trading_strands.Prelude.Dict.{Dict, get, put, remove}
use trading_strands.Decimal.{Decimals, zero_ℤ}
use trading_strands.Ledger.Model.{Ledger, equity, drawdown_pct}
use trading_strands.Tta.{Context, Predicate, Outcome, truth, evaluate}
use trading_strands.WhatIf.{WhatIfTracker, mark_to_market}
use trading_strands.Auditor.Reconciler.{
  AuditConfig, is_pass, reconcile_positions, should_kill_switch,
}
use trading_strands.Coordinator.Types.{TradeIntent, BrokerPosition, is_idle}
use trading_strands.Coordinator.Model.{
  Services, Coordinator, Execution, done, raised, execution_approved, execute,
}
use trading_strands.Risk.Manager.{RiskManager, halt_desk, unhalt_desk}
use trading_strands.Orchestrator.Names.{price_key}

-- `BotRegistration`; its callback is one of the answers of the outside
pub record BotRegistration : Type 0 where
  pub bot_id : String
  pub symbols : List String
  pub tta : Option Predicate

pub data BrokerStatus : Type 0 where
  unknown connected error : BrokerStatus

pub record Orchestrator (Handle : Type 0) : Type 0 where
  pub coordinator : Coordinator Handle
  pub whatif : Option WhatIfTracker
  pub reconciler : Option AuditConfig
  pub reconciler_cycles_failed : ℕ
  -- the tick after the last reconciliation; 0 before the first tick stands for `-1`
  pub next_after_reconcile : ℕ
  pub bots : Dict BotRegistration
  pub symbols : List String
  pub running : Bool
  pub prev_ctx : Option Context
  pub broker_status : BrokerStatus
  pub trades_executed : ℕ
  pub trades_rejected : ℕ

abbrev pub reconcile_interval : ℕ
reconcile_interval = 60

-- what a bot's callback gives
pub data Decision : Type 0 where
  decide_raises no_intent : Decision
  wants : TradeIntent → Decision

-- what `publisher.get_halt()` gives
pub data RemoteHalt : Type 0 where
  no_publisher halt_raises : RemoteHalt
  flag : Bool → RemoteHalt

-- The answers of the outside during a tick; `None` stands for an exception. `stop_before` says that
-- `stop()` was called since the tick before.
pub record Outside (Handle : Type 0) : Type 0 where
  pub stop_before : Bool
  pub remote : RemoteHalt
  pub get_prices : List String → Option (Dict ℤ)
  pub callback : String → Dict ℤ → Ledger → Decision
  pub services : String → Services Handle
  pub positions : Option (List BrokerPosition)

-- `set.update(symbols)`
unfoldable pub add_symbols : List String → List String → List String
add_symbols seen [] = seen
add_symbols seen (s ∷ ss) = add_symbols (if contains seen s then seen else seen ++ s ∷ []) ss

unfoldable pub watched : List String → Dict BotRegistration → List String
unfolding add_symbols
watched seen [] = seen
watched seen ((bot, reg) ∷ bots) = watched (add_symbols seen reg.symbols) bots

unfoldable pub add_prices : Context → Dict ℤ → Context
add_prices ctx [] = ctx
add_prices ctx ((s, p) ∷ prices) = add_prices (put ctx (price_key s) p) prices

unfoldable pub mark_whatif : Dict ℤ → Option WhatIfTracker → Option WhatIfTracker
mark_whatif prices none = none
mark_whatif prices (some t) = some (mark_to_market t prices)

abbrev pub no_bots : Dict BotRegistration → Bool
no_bots [] = true
no_bots (x ∷ xs) = false

module _ {Handle : Type 0} where
  unfoldable pub register_bot :
      Orchestrator Handle → String → List String → Option Predicate → Orchestrator Handle
  unfolding add_symbols
  register_bot o bot_id symbols tta = record o {
    bots = put o.bots bot_id (record { bot_id = bot_id; symbols = symbols; tta = tta });
    symbols = add_symbols o.symbols symbols;
  }

  unfoldable pub unregister_bot : Orchestrator Handle → String → Orchestrator Handle
  unfolding watched
  unregister_bot o bot_id =
      let bots = remove o.bots bot_id in record o { bots = bots; symbols = watched [] bots }

  abbrev pub with_risk : Orchestrator Handle → RiskManager → Orchestrator Handle
  with_risk o m = record o { coordinator = record o.coordinator { risk_manager = m } }

  -- `_check_remote_halt`
  unfoldable pub check_remote_halt : RemoteHalt → Orchestrator Handle → Orchestrator Handle
  check_remote_halt no_publisher o = o
  check_remote_halt halt_raises o = o
  check_remote_halt (flag halted) o =
      let risk = o.coordinator.risk_manager in
      if halted && not risk.desk_halted
      then with_risk o (halt_desk risk)
      else if not halted && risk.desk_halted
      then with_risk o (unhalt_desk risk)
      else o

  -- what follows a failed position check
  unfoldable pub mismatch_found : AuditConfig → Orchestrator Handle → Orchestrator Handle
  mismatch_found config o =
      let failed = suc o.reconciler_cycles_failed in
      let o' = record o { reconciler_cycles_failed = failed } in
      if should_kill_switch config zero_ℤ failed
      then with_risk o' (halt_desk o'.coordinator.risk_manager)
      else o'

  unfoldable pub reconcile_now :
      AuditConfig → Option (List BrokerPosition) → Orchestrator Handle → Orchestrator Handle
  unfolding mismatch_found
  reconcile_now config none o = o
  reconcile_now config (some positions) o =
      if is_pass (reconcile_positions o.coordinator.ledgers positions).status
      then record o { reconciler_cycles_failed = 0 }
      else mismatch_found config o

  -- `tick - last < interval`, where the last tick is one below `next_after_reconcile`
  unfoldable pub is_due : ℕ → Orchestrator Handle → Bool
  is_due tick o = leb (o.next_after_reconcile + reconcile_interval) (suc tick)

  -- `_maybe_reconcile`
  unfoldable pub maybe_reconcile :
      Option (List BrokerPosition) → ℕ → Orchestrator Handle → Orchestrator Handle
  unfolding is_due reconcile_now
  maybe_reconcile positions tick o = elim o.reconciler [
    | none ↦ o
    | some config ↦
        if is_due tick o
        then reconcile_now config positions (record o { next_after_reconcile = suc tick })
        else o
  ]

  -- what follows `coordinator.execute`
  unfoldable pub count_trade : Execution → Orchestrator Handle → Orchestrator Handle
  count_trade (raised e) o = o
  count_trade (done r) o =
      if execution_approved r
      then record o { trades_executed = suc o.trades_executed }
      else record o { trades_rejected = suc o.trades_rejected }

module _ ⦃D : Decimals⦄ where
  -- `_build_context`; the count of positions is an amount, in units
  unfoldable pub build_context : Dict ℤ → Option Ledger → Context
  unfolding add_prices
  build_context prices none = add_prices [] prices
  build_context prices (some l) =
      put
        (put
          (put
            (put (put (add_prices [] prices) "ledger.equity" (equity l)) "ledger.realized_pnl"
              l.realized_pnl)
            "ledger.drawdown_pct" (drawdown_pct l))
          "ledger.high_water_mark" l.high_water_mark)
        "ledger.position_count" (pos (length l.open_positions) *ℤ D.one)

  -- whether the predicate lets the bot be woken; an exception of `evaluate` is not caught
  unfoldable pub wakes : BotRegistration → Dict ℤ → Ledger → Option Context → Outcome
  unfolding build_context
  wakes reg prices l prev = elim reg.tta [
    | none ↦ truth true
    | some tta ↦ evaluate tta (build_context prices (some l)) prev
  ]

module _ {Handle : Type 0} ⦃D : Decimals⦄ where
  -- the intent of a bot on its way through the coordinator
  unfoldable pub route_intent :
      Outside Handle → String → Decision → Orchestrator Handle → Orchestrator Handle
  unfolding count_trade
  route_intent out bot decide_raises o = o
  route_intent out bot no_intent o = o
  route_intent out bot (wants i) o =
      let (x, c) = execute (out.services bot) i o.coordinator in
      if is_idle i.action then o else count_trade x (record o { coordinator = c })

  -- once the predicate has been evaluated; the Boolean says that the tick goes on
  unfoldable pub woken :
      Outside Handle
      → Dict ℤ
      → String
      → Ledger
      → Outcome
      → Orchestrator Handle
      → Orchestrator Handle × Bool
  unfolding route_intent
  woken out prices bot l (truth true) o = (route_intent out bot (out.callback bot prices l) o, true)
  woken out prices bot l (truth false) o = (o, true)
  woken out prices bot l e o = (o, false)

  -- the body of the loop over the bots
  unfoldable pub dispatch_bot :
      Outside Handle
      → Dict ℤ
      → String
      → BotRegistration
      → Orchestrator Handle
      → Orchestrator Handle × Bool
  unfolding wakes woken
  dispatch_bot out prices bot reg o = elim (get o.coordinator.ledgers bot) [
    | none ↦ (o, true)
    | some l ↦ woken out prices bot l (wakes reg prices l o.prev_ctx) o
  ]

  unfoldable pub dispatch :
      Outside Handle
      → Dict ℤ
      → Dict BotRegistration
      → Orchestrator Handle
      → Orchestrator Handle × Bool
  unfolding dispatch_bot
  dispatch out prices [] o = (o, true)
  dispatch out prices ((bot, reg) ∷ bots) o =
      let (o', go) = dispatch_bot out prices bot reg o in
      elim go [ true ↦ dispatch out prices bots o' | false ↦ (o', false) ]

  -- what follows the loop over the bots
  unfoldable pub after_bots :
      Outside Handle → ℕ → Dict ℤ → Orchestrator Handle → Orchestrator Handle
  unfolding mark_whatif maybe_reconcile
  after_bots out tick prices o =
      record (maybe_reconcile out.positions tick
        (record o { whatif = mark_whatif prices o.whatif })) {
          prev_ctx = some (build_context prices none);
        }

  finish_tick :
      Outside Handle → ℕ → Dict ℤ → Orchestrator Handle × Bool → Orchestrator Handle × Bool
  unfolding after_bots
  finish_tick out tick prices (o, true) = (after_bots out tick prices o, true)
  finish_tick out tick prices (o, false) = (o, false)

  -- from the market data on
  unfoldable pub tick_bots : Outside Handle → ℕ → Orchestrator Handle → Orchestrator Handle × Bool
  unfolding finish_tick dispatch
  tick_bots out n o = elim (out.get_prices o.symbols) [
    | none ↦ (record o { broker_status = error }, true)
    | some prices ↦
        let o' = record o { broker_status = connected } in
        finish_tick out n prices (dispatch out prices o'.bots o')
  ]

  -- `_tick`; the Boolean is false where an exception leaves it
  unfoldable pub tick : Outside Handle → ℕ → Orchestrator Handle → Orchestrator Handle × Bool
  unfolding check_remote_halt tick_bots
  tick out n o =
      let o' = check_remote_halt out.remote o in
      if no_bots o'.bots then (o', true) else tick_bots out n o'

  -- `stop()`
  unfoldable pub stop : Orchestrator Handle → Orchestrator Handle
  stop o = record o { running = false }

  -- the loop of `run` over the ticks that are left, with the number of the tick at which it ends
  -- and whether it ended without an exception
  unfoldable pub run_ticks :
      List (Outside Handle) → ℕ → Orchestrator Handle → Orchestrator Handle × ℕ × Bool
  unfolding stop
  run_ticks [] n o = (o, n, true)
  run_ticks (out ∷ outs) n o =
      let before = if out.stop_before then stop o else o in
      let (o', ok) = tick out n before in
      elim before.running [
        | false ↦ (before, n, true)
        | true ↦ elim ok [ true ↦ run_ticks outs (suc n) o' | false ↦ (o', n, false) ]
      ]

  -- `run(max_ticks)`, for as many ticks as the outside gives answers
  unfoldable pub run : List (Outside Handle) → Orchestrator Handle → Orchestrator Handle × ℕ × Bool
  unfolding run_ticks
  run outs o = run_ticks outs 0 (record o { running = true })
