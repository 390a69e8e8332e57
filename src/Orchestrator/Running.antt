-- ===== src/Orchestrator/Running.antt =====
-- What holds of every tick, and of every run of the loop.
use trading_strands.Prelude.{
  ℕ, suc, ◌+◌, ◌≤◌, ◌≡◌, ◌∙◌, ap, true, false, List, ◌∷◌, arith, length, if◌then◌else◌,
}
use trading_strands.Prelude.Int.{ℤ}
use trading_strands.Prelude.Dict.{Dict}
use trading_strands.Decimal.{Decimals}
use trading_strands.Coordinator.Booking.{AreValid}
use trading_strands.Orchestrator.Model.{
  Orchestrator, Outside, dispatch, mark_whatif, after_bots, tick, stop, run_ticks,
}
use trading_strands.Orchestrator.Frame.{dispatch-Kept}
use trading_strands.Orchestrator.Ticks.{
  SameDesk, opened, check_remote_halt-frame, maybe_reconcile-SameDesk, without_bots, without_prices,
  broken, complete, tick-Ticked,
}

module _ {Handle : Type 0} ⦃D : Decimals⦄ where
  -- What a tick with `k` bots can do: the ledgers stay valid, at most `k` orders are sent, and the bots
  -- and the reconciler stay registered.
  pub record Stays (k : ℕ) (o o' : Orchestrator Handle) : Type 0 where
    pub valid : AreValid o.coordinator → AreValid o'.coordinator
    pub ordered : length o'.coordinator.orders ≤ k + length o.coordinator.orders
    pub bots : o'.bots ≡ o.bots
    pub reconciler : o'.reconciler ≡ o.reconciler
    pub running : o'.running ≡ o.running

  SameDesk-Stays : (k : ℕ) (o o' : Orchestrator Handle) → SameDesk o o' → Stays k o o'
  SameDesk-Stays k o o' s = record {
    valid = λ v b l e. v b l (rw s.ledgers at e);
    ordered = omega (arith, ap length s.orders);
    bots = s.bots;
    reconciler = s.reconciler;
    running = s.running;
  }

  Stays-trans :
      (j k n : ℕ) (a b c : Orchestrator Handle)
      → j + k ≤ n
      → Stays j a b
      → Stays k b c
      → Stays n a c
  Stays-trans j k n a b c h x y = record {
    valid = λ v. y.valid (x.valid v);
    ordered = omega (arith, h, x.ordered, y.ordered);
    bots = y.bots ∙ x.bots;
    reconciler = y.reconciler ∙ x.reconciler;
    running = y.running ∙ x.running;
  }

  dispatched-Stays :
      (out : Outside Handle) (p : Dict ℤ) (o : Orchestrator Handle)
      → Stays (length o.bots) o (dispatch out p (opened out o).bots (opened out o)).0
  dispatched-Stays out p o =
      let s = (check_remote_halt-frame out.remote o).0 in
      let k = dispatch-Kept out p (opened out o).bots (opened out o) in
      Stays-trans 0 (length (opened out o).bots) (length o.bots) o (opened out o) _
        (omega (arith, ap length s.bots))
        (SameDesk-Stays 0 o (opened out o) (record {
          ledgers = s.ledgers;
          orders = s.orders;
          bots = s.bots;
          symbols = s.symbols;
          reconciler = s.reconciler;
          running = s.running;
        }))
        (record {
          valid = k.valid;
          ordered = k.ordered;
          bots = k.bots;
          reconciler = k.reconciler;
          running = k.running;
        })

  after_bots-Stays :
      (out : Outside Handle) (n : ℕ) (p : Dict ℤ) (o : Orchestrator Handle)
      → Stays 0 o (after_bots out n p o)
  unfolding after_bots
  after_bots-Stays out n p o =
      let s = maybe_reconcile-SameDesk out n (record o { whatif = mark_whatif p o.whatif }) in
      SameDesk-Stays 0 o _ (record {
        ledgers = s.ledgers;
        orders = s.orders;
        bots = s.bots;
        symbols = s.symbols;
        reconciler = s.reconciler;
        running = s.running;
      })

  pub tick-Stays :
      (out : Outside Handle) (n : ℕ) (o : Orchestrator Handle)
      → Stays (length o.bots) o (tick out n o).0
  tick-Stays out n o =
      let s = (check_remote_halt-frame out.remote o).0 in
      elim (tick-Ticked out n o) [
        | without_bots empty end ↦ rw end (SameDesk-Stays (length o.bots) o _ s)
        | without_prices blind end ↦ rw end (
            SameDesk-Stays (length o.bots) o _ (record {
              ledgers = s.ledgers;
              orders = s.orders;
              bots = s.bots;
              symbols = s.symbols;
              reconciler = s.reconciler;
              running = s.running;
            }))
        | broken p fails end ↦ rw end (dispatched-Stays out p o)
        | complete p goes end ↦ rw end (
            Stays-trans (length o.bots) 0 (length o.bots) o _ _ (omega arith)
              (dispatched-Stays out p o)
              (after_bots-Stays out n p (dispatch out p (opened out o).bots (opened out o)).0))
      ]

module _ {Handle : Type 0} ⦃D : Decimals⦄ where
  -- the state with which a tick of the loop begins
  abbrev pub before : Outside Handle → Orchestrator Handle → Orchestrator Handle
  before out o = if out.stop_before then stop o else o

  pub run_ticks-stopped :
      (out : Outside Handle) (outs : List (Outside Handle)) (n : ℕ) (o : Orchestrator Handle)
      → (before out o).running ≡ false
      → run_ticks (out ∷ outs) n o ≡ (before out o, n, true)
  unfolding run_ticks
  run_ticks-stopped out outs n o e = ground arith

  pub run_ticks-goes :
      (out : Outside Handle) (outs : List (Outside Handle)) (n : ℕ) (o : Orchestrator Handle)
      → (before out o).running ≡ true
      → (tick out n (before out o)).1 ≡ true
      → run_ticks (out ∷ outs) n o ≡ run_ticks outs (suc n) (tick out n (before out o)).0
  unfolding run_ticks
  run_ticks-goes out outs n o e f = ground arith

  pub run_ticks-raises :
      (out : Outside Handle) (outs : List (Outside Handle)) (n : ℕ) (o : Orchestrator Handle)
      → (before out o).running ≡ true
      → (tick out n (before out o)).1 ≡ false
      → run_ticks (out ∷ outs) n o ≡ ((tick out n (before out o)).0, n, false)
  unfolding run_ticks
  run_ticks-raises out outs n o e f = ground arith

  -- what the request to stop leaves alone
  pub before-frame :
      (out : Outside Handle) (o : Orchestrator Handle)
      → ((before out o).coordinator ≡ o.coordinator) × ((before out o).bots ≡ o.bots)
  unfolding stop
  before-frame out o = (ground arith, ground arith)
