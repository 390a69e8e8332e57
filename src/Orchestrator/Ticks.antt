-- ===== src/Orchestrator/Ticks.antt =====
-- The ways in which a tick can go, and what it leaves alone on each.
use trading_strands.Prelude.{
  ℕ, ◌≡◌, ◌∙◌, ap, true, false, none, some, arith, inl, inr, Option-cases, Bool-cases,
}
use trading_strands.Prelude.Int.{ℤ}
use trading_strands.Prelude.Dict.{Dict}
use trading_strands.Decimal.{Decimals}
use trading_strands.Orchestrator.Model.{
  Orchestrator, RemoteHalt, Outside, connected, error, no_bots, check_remote_halt, mismatch_found,
  reconcile_now, maybe_reconcile, dispatch, after_bots, tick_bots, tick,
}

module _ {Handle : Type 0} where
  -- the state in which the bots are woken
  abbrev pub opened : Outside Handle → Orchestrator Handle → Orchestrator Handle
  opened out o = record (check_remote_halt out.remote o) { broker_status = connected }

  -- what a change of the halts and of the counts of the reconciliation leaves alone
  pub record SameDesk (o o' : Orchestrator Handle) : Type 0 where
    pub ledgers : o'.coordinator.ledgers ≡ o.coordinator.ledgers
    pub orders : o'.coordinator.orders ≡ o.coordinator.orders
    pub bots : o'.bots ≡ o.bots
    pub symbols : o'.symbols ≡ o.symbols
    pub reconciler : o'.reconciler ≡ o.reconciler
    pub running : o'.running ≡ o.running

  pub check_remote_halt-frame :
      (r : RemoteHalt) (o : Orchestrator Handle)
      → SameDesk o (check_remote_halt r o)
        × ((check_remote_halt r o).reconciler_cycles_failed ≡ o.reconciler_cycles_failed)
        × ((check_remote_halt r o).next_after_reconcile ≡ o.next_after_reconcile)
  unfolding check_remote_halt
  check_remote_halt-frame r o = (
    record {
      ledgers = ground arith;
      orders = ground arith;
      bots = ground arith;
      symbols = ground arith;
      reconciler = ground arith;
      running = ground arith;
    },
    ground arith,
    ground arith,
  )

  pub maybe_reconcile-SameDesk :
      (out : Outside Handle) (n : ℕ) (o : Orchestrator Handle)
      → SameDesk o (maybe_reconcile out.positions n o)
  unfolding maybe_reconcile reconcile_now mismatch_found
  maybe_reconcile-SameDesk out n o = record {
    ledgers = ground arith;
    orders = ground arith;
    bots = ground arith;
    symbols = ground arith;
    reconciler = ground arith;
    running = ground arith;
  }

module _ {Handle : Type 0} ⦃D : Decimals⦄ where
  -- A tick without bots; without market data; one that an exception ends; and one that goes through.
  pub data Ticked (out : Outside Handle) (n : ℕ) (o : Orchestrator Handle) : Type 0 where
    without_bots :
        (empty : no_bots (check_remote_halt out.remote o).bots ≡ true)
        (end : tick out n o ≡ (check_remote_halt out.remote o, true))
        → Ticked out n o
    without_prices :
        (blind : out.get_prices (check_remote_halt out.remote o).symbols ≡ none)
        (end : tick out n o
          ≡ (record (check_remote_halt out.remote o) { broker_status = error }, true))
        → Ticked out n o
    broken :
        (prices : Dict ℤ)
        (fails : (dispatch out prices (opened out o).bots (opened out o)).1 ≡ false)
        (end : tick out n o ≡ ((dispatch out prices (opened out o).bots (opened out o)).0, false))
        → Ticked out n o
    complete :
        (prices : Dict ℤ) (goes : (dispatch out prices (opened out o).bots (opened out o)).1 ≡ true)
        (end : tick out n o ≡ (
          after_bots out n prices (dispatch out prices (opened out o).bots (opened out o)).0,
          true,
        ))
        → Ticked out n o

  tick_bots_blind :
      (out : Outside Handle) (n : ℕ) (o : Orchestrator Handle)
      → out.get_prices o.symbols ≡ none
      → tick_bots out n o ≡ (record o { broker_status = error }, true)
  unfolding tick_bots
  tick_bots_blind out n o e = ground arith

  pub tick_bots_broken :
      (out : Outside Handle) (n : ℕ) (o : Orchestrator Handle) (p : Dict ℤ)
      (m : Orchestrator Handle)
      → out.get_prices o.symbols ≡ some p
      → dispatch out p o.bots (record o { broker_status = connected }) ≡ (m, false)
      → tick_bots out n o ≡ (m, false)
  unfolding tick_bots
  tick_bots_broken out n o p m e x = ground arith

  tick_bots_complete :
      (out : Outside Handle) (n : ℕ) (o : Orchestrator Handle) (p : Dict ℤ)
      (m : Orchestrator Handle)
      → out.get_prices o.symbols ≡ some p
      → dispatch out p o.bots (record o { broker_status = connected }) ≡ (m, true)
      → tick_bots out n o ≡ (after_bots out n p m, true)
  unfolding tick_bots
  tick_bots_complete out n o p m e x = ground arith

  pub tick-some :
      (out : Outside Handle) (n : ℕ) (o : Orchestrator Handle)
      → no_bots (check_remote_halt out.remote o).bots ≡ false
      → tick out n o ≡ tick_bots out n (check_remote_halt out.remote o)
  unfolding tick
  tick-some out n o e = ground arith

  pub tick-Ticked : (out : Outside Handle) (n : ℕ) (o : Orchestrator Handle) → Ticked out n o
  tick-Ticked out n o =
      let c = check_remote_halt out.remote o in
      elim (Bool-cases (no_bots c.bots)) [
        | inl empty ↦ without_bots empty (unfold tick in ground arith)
        | inr some_bots ↦ elim (Option-cases (out.get_prices c.symbols)) [
          | inl n' ↦ without_prices n' (tick-some out n o some_bots ∙ tick_bots_blind out n c n')
          | inr (p, e) ↦
              let d = dispatch out p c.bots (record c { broker_status = connected }) in
              elim (Bool-cases d.1) [
                | inl goes ↦ complete p goes (
                    tick-some out n o some_bots
                    ∙ tick_bots_complete out n c p d.0 e (ap (λ b. (d.0, b)) goes))
                | inr fails ↦ broken p fails (
                    tick-some out n o some_bots
                    ∙ tick_bots_broken out n c p d.0 e (ap (λ b. (d.0, b)) fails))
              ]
        ]
      ]
