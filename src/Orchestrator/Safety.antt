-- ===== src/Orchestrator/Safety.antt =====
-- What holds of every run of the loop, and when a run comes to its end.
use trading_strands.Prelude.{
  ℕ, suc, ◌+◌, ◌*◌, ◌≤◌, ◌≡◌, ◌∙◌, ap, true, List, [], ◌∷◌, arith, inl, inr, Bool-cases, length,
}
use trading_strands.Decimal.{Decimals}
use trading_strands.Coordinator.Booking.{AreValid}
use trading_strands.Orchestrator.Model.{Orchestrator, Outside, tick, run_ticks, run}
use trading_strands.Orchestrator.Running.{
  tick-Stays, before, before-frame, run_ticks-stopped, run_ticks-goes, run_ticks-raises,
}

module _ {Handle : Type 0} ⦃D : Decimals⦄ where
  -- What a run can do: the ledgers stay valid, and at most `k` orders are sent.
  pub record Safe (k : ℕ) (o o' : Orchestrator Handle) : Type 0 where
    pub valid : AreValid o.coordinator → AreValid o'.coordinator
    pub ordered : length o'.coordinator.orders ≤ k + length o.coordinator.orders

  -- one tick, the request to stop before it included
  step-Stays :
      (out : Outside Handle) (n : ℕ) (o : Orchestrator Handle)
      → Safe (length o.bots) o (tick out n (before out o)).0
        × ((tick out n (before out o)).0.bots ≡ o.bots)
  step-Stays out n o =
      let (c, bs) = before-frame out o in
      let t = tick-Stays out n (before out o) in
      (
        record {
          valid = λ v. t.valid (rw c v);
          ordered = omega (arith, t.ordered, ap length bs, ap (λ x. length x.orders) c);
        },
        t.bots ∙ bs,
      )

  run_ticks-Safe :
      (outs : List (Outside Handle)) (n : ℕ) (o : Orchestrator Handle)
      → Safe (length outs * length o.bots) o (run_ticks outs n o).0
  run_ticks-Safe [] n o = unfold run_ticks in record { valid = λ v. v; ordered = omega arith }
  run_ticks-Safe (out ∷ outs) n o =
      let (c, bs) = before-frame out o in
      let (s, sb) = step-Stays out n o in
      elim (Bool-cases (before out o).running) [
        | inr stopped ↦
            rw (run_ticks-stopped out outs n o stopped) (record {
              valid = λ v. rw c v;
              ordered = ground (arith, ap (λ x. length x.orders) c);
            })
        | inl goes ↦ elim (Bool-cases (tick out n (before out o)).1) [
          | inr fails ↦
              rw (run_ticks-raises out outs n o goes fails)
                (record { valid = s.valid; ordered = ground (arith, s.ordered) })
          | inl ok ↦
              let r = run_ticks-Safe outs (suc n) (tick out n (before out o)).0 in
              rw (run_ticks-goes out outs n o goes ok) (record {
                valid = λ v. r.valid (s.valid v);
                ordered = ground (arith, s.ordered, r.ordered, ap length sb);
              })
        ]
      ]

  -- A run over `k` ticks keeps every ledger valid and sends at most `k` orders for every registered bot,
  -- whatever the predicates, the callbacks and the brokers answer.
  pub run-Safe :
      (outs : List (Outside Handle)) (o : Orchestrator Handle)
      → Safe (length outs * length o.bots) o (run outs o).0
  unfolding run
  run-Safe outs o =
      let r = run_ticks-Safe outs 0 (record o { running = true }) in
      record { valid = r.valid; ordered = r.ordered }
