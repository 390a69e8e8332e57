-- ===== src/Tests/Orchestrator.antt =====
-- Tests of the loop: orchestrator/engine.py. A broker is named by its organisation.
use trading_strands.Prelude.{
  ℕ, zero, suc, ◌*◌, String, ◌≡◌, refl, ◌∙◌, ap, true, false, Option, none, some, List, [], ◌∷◌,
  ◌++◌, arith, inl, inr, Option-cases, length,
}
use trading_strands.Prelude.Int.{ℤ, pos, ◌+ℤ◌}
use trading_strands.Prelude.Dict.{Dict, get, put}
use trading_strands.Decimal.{whole_units}
use trading_strands.Ledger.Model.{new_ledger}
use trading_strands.Tta.{negation, comparison}
use trading_strands.Coordinator.Types.{buy, BrokerPosition}
use trading_strands.Risk.Manager.{halt_desk}
use trading_strands.Auditor.Reconciler.{
  AuditConfig, is_pass, reconcile_positions, ledger_totals, broker_totals, mismatches, union, keys,
  sort_texts, insert_text,
}
use trading_strands.Orchestrator.Model.{
  BotRegistration, Orchestrator, unknown, Outside, wants, no_intent, no_publisher, flag, dispatch,
  dispatch_bot, wakes, after_bots, route_intent, woken, tick, run,
}
use trading_strands.Orchestrator.Ticks.{
  opened, maybe_reconcile-SameDesk, check_remote_halt-frame, without_bots, without_prices, broken,
  complete, tick-Ticked,
}
use trading_strands.Orchestrator.Running.{tick-Stays}
use trading_strands.Orchestrator.Safety.{Safe, run-Safe}
use trading_strands.Orchestrator.Completion.{tick-goes, run_completes}
use trading_strands.Orchestrator.Halting.{is_halted, tick-flag}
use trading_strands.Orchestrator.Drift.{AllDrift, drift_halts}
use trading_strands.Tests.Risk.{intent}
use trading_strands.Tests.Coordinator.{services, desk}

abbrev registered : Dict BotRegistration
registered = ("bot", record { bot_id = "bot"; symbols = "SPY" ∷ []; tta = none }) ∷ []

abbrev loop : Orchestrator String
loop = record {
  coordinator = desk;
  whatif = none;
  reconciler = none;
  reconciler_cycles_failed = 0;
  next_after_reconcile = 0;
  bots = registered;
  symbols = "SPY" ∷ [];
  running = false;
  prev_ctx = none;
  broker_status = unknown;
  trades_executed = 0;
  trades_rejected = 0;
}

abbrev quoted : Option (Dict ℤ)
quoted = some (("SPY", pos 500) ∷ [])

-- the bot wants to buy, at a desk that the dashboard does not halt
abbrev busy : Outside String
busy = record {
  stop_before = false;
  remote = flag false;
  get_prices = λ s. quoted;
  callback = λ b p l. wants (intent buy (pos 2));
  services = λ b. services;
  positions = none;
}

abbrev halted : Orchestrator String
halted = record loop { coordinator = record desk { risk_manager = halt_desk desk.risk_manager } }

tick-flag_example : is_halted (tick ⦃D = whole_units⦄ busy 7 halted).0 ≡ false
tick-flag_example = tick-flag ⦃D = whole_units⦄ busy 7 halted false refl (inl refl)

run-Safe_example :
    Safe ⦃D = whole_units⦄
      (length (busy ∷ busy ∷ []) * length loop.bots)
      loop
      (run ⦃D = whole_units⦄ (busy ∷ busy ∷ []) loop).0
run-Safe_example = run-Safe ⦃D = whole_units⦄ (busy ∷ busy ∷ []) loop

run_completes_example :
    ((run ⦃D = whole_units⦄ (busy ∷ busy ∷ []) loop).1 ≡ length (busy ∷ busy ∷ []))
    × ((run ⦃D = whole_units⦄ (busy ∷ busy ∷ []) loop).2 ≡ true)
run_completes_example =
    run_completes ⦃D = whole_units⦄ (busy ∷ busy ∷ []) loop (inl refl, tt) (refl, (refl, tt))

-- the bot wants nothing, and the broker holds what no ledger knows
abbrev stray : List BrokerPosition
stray =
    record { symbol = "SPY"; quantity = pos 8; market_value = pos 4000; current_price = pos 500 }
    ∷ []

abbrev silent : Outside String
silent = record busy {
  remote = no_publisher;
  callback = λ b p l. no_intent;
  positions = some stray;
}

stray_fails : is_pass (reconcile_positions desk.ledgers stray).status ≡ false
unfolding reconcile_positions ledger_totals broker_totals mismatches union keys sort_texts
    insert_text get put new_ledger ◌+ℤ◌
stray_fails = refl

silent-dispatch :
    (p : Dict ℤ) (o : Orchestrator String)
    → (dispatch ⦃D = whole_units⦄ silent p registered o).0 ≡ o
unfolding dispatch dispatch_bot wakes woken route_intent
silent-dispatch p o = elim (Option-cases (get o.coordinator.ledgers "bot")) [
  | inl n ↦ ground arith
  | inr (l, e) ↦ ground arith
]

-- a value that cannot be read, under a negation
abbrev spoilt : BotRegistration
spoilt = record {
  bot_id = "other";
  symbols = [];
  tta = some (negation (comparison "SPY" "gt" none));
}

abbrev after_it : Dict BotRegistration
after_it = ("third", spoilt) ∷ []

abbrev crowded : Orchestrator String
crowded = record loop { bots = registered ++ ("other", spoilt) ∷ after_it }

silent_bots :
    (p : Dict ℤ) (bots : Dict BotRegistration) (o : Orchestrator String)
    → bots ≡ registered
    → (dispatch ⦃D = whole_units⦄ silent p bots o).0.coordinator.ledgers ≡ o.coordinator.ledgers
silent_bots p bots o e = rw e (ap (λ x. x.coordinator.ledgers) (silent-dispatch p o))

silent-tick :
    (n : ℕ) (o : Orchestrator String)
    → o.bots ≡ registered
    → o.coordinator.ledgers ≡ desk.ledgers
    → (tick ⦃D = whole_units⦄ silent n o).0.coordinator.ledgers ≡ desk.ledgers
unfolding after_bots
silent-tick n o bs ls =
    let s = (check_remote_halt-frame no_publisher o).0 in
    let kept = λ (p : Dict ℤ).
      silent_bots p (opened silent o).bots (opened silent o) (s.bots ∙ bs) ∙ s.ledgers in
    elim (tick-Ticked ⦃D = whole_units⦄ silent n o) [
      | without_bots empty end ↦ ap (λ r. r.0.coordinator.ledgers) end ∙ s.ledgers ∙ ls
      | without_prices blind end ↦ ap (λ r. r.0.coordinator.ledgers) end ∙ s.ledgers ∙ ls
      | broken p fails end ↦ ap (λ r. r.0.coordinator.ledgers) end ∙ kept p ∙ ls
      | complete p goes end ↦
          ap (λ r. r.0.coordinator.ledgers) end
          ∙ (maybe_reconcile-SameDesk silent n _).ledgers
          ∙ kept p
          ∙ ls
    ]

abbrev silence : ℕ → List (Outside String)
silence zero = []
silence (suc k) = silent ∷ silence k

silence_drifts :
    (k n : ℕ) (o : Orchestrator String)
    → o.bots ≡ registered
    → o.coordinator.ledgers ≡ desk.ledgers
    → AllDrift ⦃D = whole_units⦄ (silence k) n o
unfolding AllDrift
silence_drifts zero n o bs ls = tt
silence_drifts (suc k) n o bs ls = (
  record {
    undisturbed = refl;
    unstopped = refl;
    some_bots = rw bs refl;
    prices = refl;
    goes = tick-goes ⦃D = whole_units⦄ silent n o (rw bs (inl refl, tt));
    held = stray;
    positions = refl;
    differ = rw (silent-tick n o bs ls) stray_fails;
  },
  silence_drifts k (suc n) (tick ⦃D = whole_units⦄ silent n o).0
      ((tick-Stays ⦃D = whole_units⦄ silent n o).bots ∙ bs) (silent-tick n o bs ls),
)

abbrev strict : AuditConfig
strict = record {
  fee_drift_threshold_pct = pos 0;
  fee_drift_threshold_abs = pos 0;
  position_mismatch_cycles = 2;
}

abbrev watched_loop : Orchestrator String
watched_loop = record loop { reconciler = some strict }

drift_halts_example : is_halted (run ⦃D = whole_units⦄ (silence 120) watched_loop).0 ≡ true
drift_halts_example =
    drift_halts ⦃D = whole_units⦄ (silence 120) watched_loop strict refl refl refl (omega arith)
      (omega arith) (silence_drifts 120 0 (record watched_loop { running = true }) refl refl)
