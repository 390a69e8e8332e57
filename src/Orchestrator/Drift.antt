-- ===== src/Orchestrator/Drift.antt =====
-- A broker whose positions never agree with the ledgers.
use trading_strands.Prelude.{
  ℕ, suc, ◌+◌, ◌*◌, ◌≤◌, ◌<◌, ◌≡◌, refl, sym, ◌∙◌, ap, true, false, false≢true, some, List, [], ◌∷◌,
  arith, inl, inr, ◌⊎◌, Bool-cases, length, leb, is_some,
}
use trading_strands.Prelude.Int.{ℤ}
use trading_strands.Prelude.Dict.{Dict}
use trading_strands.Decimal.{Decimals}
use trading_strands.Coordinator.Types.{BrokerPosition}
use trading_strands.Auditor.Reconciler.{
  AuditConfig, is_pass, reconcile_positions, should_kill_switch,
}
use trading_strands.Risk.Manager.{halt_desk}
use trading_strands.Orchestrator.Model.{
  Orchestrator, Outside, no_publisher, no_bots, check_remote_halt, mismatch_found, reconcile_now,
  is_due, maybe_reconcile, mark_whatif, dispatch, after_bots, tick, run_ticks, run,
}
use trading_strands.Orchestrator.Frame.{dispatch-Kept}
use trading_strands.Orchestrator.Ticks.{
  opened, check_remote_halt-frame, maybe_reconcile-SameDesk, without_bots, without_prices, broken,
  complete, tick-Ticked,
}
use trading_strands.Orchestrator.Running.{tick-Stays, before, run_ticks-goes}
use trading_strands.Orchestrator.Halting.{is_halted, maybe_reconcile-idle}

le_or_lt : (a b : ℕ) → (a ≤ b) ⊎ (b < a)
le_or_lt a b = elim (Bool-cases (leb a b)) [
  | inl t ↦ inl (ground (arith, t))
  | inr t ↦ inr (ground (arith, t))
]

module _ {Handle : Type 0} where
  -- A check that fails: it is counted, and halts the desk once enough have failed in a row.
  abbrev pub Counted : AuditConfig → ℕ → Orchestrator Handle → Orchestrator Handle → Type 0
  Counted config n o o' =
      (o'.next_after_reconcile ≡ suc n)
      × (o'.reconciler_cycles_failed ≡ suc o.reconciler_cycles_failed)
      × (is_halted o ≡ true → is_halted o' ≡ true)
      × (config.position_mismatch_cycles ≤ suc o.reconciler_cycles_failed → is_halted o' ≡ true)

  -- A tick without a check.
  abbrev pub Skipped : Orchestrator Handle → Orchestrator Handle → Type 0
  Skipped o o' =
      (o'.next_after_reconcile ≡ o.next_after_reconcile)
      × (o'.reconciler_cycles_failed ≡ o.reconciler_cycles_failed)
      × (is_halted o ≡ true → is_halted o' ≡ true)

  mismatch_found-Counted :
      (config : AuditConfig) (n : ℕ) (o : Orchestrator Handle)
      → Counted config n o (mismatch_found config (record o { next_after_reconcile = suc n }))
  unfolding mismatch_found should_kill_switch halt_desk
  mismatch_found-Counted config n o =
      (ground arith, ground arith, λ h. ground arith, λ h. ground arith)

  maybe_reconcile-due :
      (out : Outside Handle) (n : ℕ) (o : Orchestrator Handle) (config : AuditConfig)
      (ps : List BrokerPosition)
      → o.reconciler ≡ some config
      → is_due n o ≡ true
      → out.positions ≡ some ps
      → is_pass (reconcile_positions o.coordinator.ledgers ps).status ≡ false
      → maybe_reconcile out.positions n o
        ≡ mismatch_found config (record o { next_after_reconcile = suc n })
  unfolding maybe_reconcile reconcile_now
  maybe_reconcile-due out n o config ps r d e x = ground arith

module _ {Handle : Type 0} ⦃D : Decimals⦄ where
  -- A tick that goes through, without a publisher, after which the positions of the broker differ
  -- from those of the ledgers.
  pub record Drifts (out : Outside Handle) (n : ℕ) (o : Orchestrator Handle) : Type 0 where
    pub undisturbed : out.remote ≡ no_publisher
    pub unstopped : out.stop_before ≡ false
    pub some_bots : no_bots o.bots ≡ false
    pub prices : is_some (out.get_prices o.symbols) ≡ true
    pub goes : (tick out n o).1 ≡ true
    pub held : List BrokerPosition
    pub positions : out.positions ≡ some held
    pub differ :
        is_pass (reconcile_positions (tick out n o).0.coordinator.ledgers held).status ≡ false

  -- the same of every tick of a run
  unfoldable pub AllDrift : List (Outside Handle) → ℕ → Orchestrator Handle → Type 0
  AllDrift [] n o = Unit
  AllDrift (out ∷ outs) n o = Drifts out n o × AllDrift outs (suc n) (tick out n o).0

  -- the state in which the bots are done
  abbrev pub dispatched : Outside Handle → Dict ℤ → Orchestrator Handle → Orchestrator Handle
  dispatched out p o = (dispatch out p (opened out o).bots (opened out o)).0

  Drifts-complete :
      (out : Outside Handle) (n : ℕ) (o : Orchestrator Handle)
      → Drifts out n o
      → (p : Dict ℤ) × ((tick out n o).0 ≡ after_bots out n p (dispatched out p o))
  Drifts-complete out n o h =
      let (s, _, _) = check_remote_halt-frame out.remote o in
      elim (tick-Ticked out n o) [
        | without_bots empty end ↦
            absurd (false≢true (sym h.some_bots ∙ ap no_bots (sym s.bots) ∙ empty))
        | without_prices blind end ↦ absurd (
            false≢true
              (ap is_some (sym blind) ∙ ap (λ x. is_some (out.get_prices x)) s.symbols ∙ h.prices))
        | broken p fails end ↦ absurd (false≢true (ap (λ r. r.1) (sym end) ∙ h.goes))
        | complete p goes end ↦ (p, ap (λ r. r.0) end)
      ]

  -- what stands before the bots and what they do, without a publisher
  dispatched-Skipped :
      (out : Outside Handle) (p : Dict ℤ) (o : Orchestrator Handle)
      → out.remote ≡ no_publisher
      → Skipped o (dispatched out p o) × ((dispatched out p o).reconciler ≡ o.reconciler)
  unfolding check_remote_halt
  dispatched-Skipped out p o h =
      let (s, f, x) = check_remote_halt-frame out.remote o in
      let k = dispatch-Kept out p (opened out o).bots (opened out o) in
      let same : check_remote_halt out.remote o ≡ o = ground arith in
      (
        (k.next ∙ x, k.failed ∙ f, λ t. ap (λ m. m.desk_halted) k.risk ∙ ap is_halted same ∙ t),
        k.reconciler ∙ s.reconciler,
      )

  after_bots-skip :
      (out : Outside Handle) (n : ℕ) (p : Dict ℤ) (o : Orchestrator Handle)
      → is_due n o ≡ false
      → Skipped o (after_bots out n p o)
  unfolding after_bots is_due
  after_bots-skip out n p o q =
      let m = record o { whatif = mark_whatif p o.whatif } in
      let e = maybe_reconcile-idle out.positions n m (inr q) in
      (
        ap (λ x. x.next_after_reconcile) e,
        ap (λ x. x.reconciler_cycles_failed) e,
        λ h. ap is_halted e ∙ h,
      )

  after_bots-count :
      (out : Outside Handle) (n : ℕ) (p : Dict ℤ) (o : Orchestrator Handle) (config : AuditConfig)
      (ps : List BrokerPosition)
      → o.reconciler ≡ some config
      → is_due n o ≡ true
      → out.positions ≡ some ps
      → is_pass (reconcile_positions (after_bots out n p o).coordinator.ledgers ps).status ≡ false
      → Counted config n o (after_bots out n p o)
  unfolding after_bots is_due
  after_bots-count out n p o config ps r d e x =
      let m = record o { whatif = mark_whatif p o.whatif } in
      let same = (maybe_reconcile-SameDesk out n m).ledgers in
      let f = maybe_reconcile-due out n m config ps r d e (rw same at x) in
      let (a, b, c, h) = mismatch_found-Counted config n m in
      (
        ap (λ x. x.next_after_reconcile) f ∙ a,
        ap (λ x. x.reconciler_cycles_failed) f ∙ b,
        λ t. ap is_halted f ∙ c t,
        λ t. ap is_halted f ∙ h t,
      )

  is_due-dispatched :
      (out : Outside Handle) (n : ℕ) (p : Dict ℤ) (o : Orchestrator Handle)
      → out.remote ≡ no_publisher
      → is_due n (dispatched out p o) ≡ is_due n o
  unfolding is_due
  is_due-dispatched out n p o h = let ((x, _, _), _) = dispatched-Skipped out p o h in rw x refl

  Drifts-tick :
      (out : Outside Handle) (n : ℕ) (o : Orchestrator Handle) (config : AuditConfig)
      → o.reconciler ≡ some config
      → Drifts out n o
      → ((is_due n o ≡ false) × Skipped o (tick out n o).0)
        ⊎ ((is_due n o ≡ true) × Counted config n o (tick out n o).0)
  Drifts-tick out n o config r h =
      let (p, end) = Drifts-complete out n o h in
      let m = dispatched out p o in
      let ((x, f, k), c) = dispatched-Skipped out p o h.undisturbed in
      let due = is_due-dispatched out n p o h.undisturbed in
      elim (Bool-cases (is_due n o)) [
        | inr q ↦
            let (x', f', k') = after_bots-skip out n p m (due ∙ q) in
            inl (q, rw end (x' ∙ x, f' ∙ f, λ t. k' (k t)))
        | inl d ↦
            let (x', f', k', t') =
              after_bots-count out n p m config h.held (c ∙ r) (due ∙ d) h.positions
                (rw end at h.differ) in
            inr (d, rw end (x', f' ∙ ap suc f, λ t. k' (k t), λ t. t' (rw f t)))
      ]

  not_due :
      (n : ℕ) (o : Orchestrator Handle) → is_due n o ≡ false → suc n < o.next_after_reconcile + 60
  unfolding is_due
  not_due n o e = ground (arith, e)

  due : (n : ℕ) (o : Orchestrator Handle) → is_due n o ≡ true → o.next_after_reconcile + 60 ≤ suc n
  unfolding is_due
  due n o e = ground (arith, e)

  run_ticks_halts :
      (outs : List (Outside Handle)) (n : ℕ) (o : Orchestrator Handle) (config : AuditConfig)
      → o.reconciler ≡ some config
      → o.running ≡ true
      → AllDrift outs n o
      → (is_halted o ≡ true)
        ⊎ ((n < o.next_after_reconcile + 60)
            × (config.position_mismatch_cycles * 60 + o.next_after_reconcile
                ≤ length outs + n + o.reconciler_cycles_failed * 60)
            × (o.reconciler_cycles_failed < config.position_mismatch_cycles))
      → is_halted (run_ticks outs n o).0 ≡ true
  unfolding AllDrift
  run_ticks_halts [] n o config r g h (inl t) = unfold run_ticks in t
  run_ticks_halts [] n o config r g h (inr (a, b, c)) = absurd (omega (arith, a, b, c))
  run_ticks_halts (out ∷ outs) n o config r g (h, hs) t =
      let s = tick-Stays out n o in
      let same : before out o ≡ o = rw h.unstopped refl in
      let rest =
        run_ticks_halts outs (suc n) (tick out n o).0 config (s.reconciler ∙ r) (s.running ∙ g)
          hs in
      rw (run_ticks-goes out outs n o (rw same g) (rw same h.goes), same)
        (rest (elim (Drifts-tick out n o config r h) [
          | inl (q, (x, f, k)) ↦ elim t [
            | inl t ↦ inl (k t)
            | inr (a, b, c) ↦
                inr (omega (arith, not_due n o q, x), omega (arith, b, x, f), omega (arith, c, f))
          ]
          | inr (d, (x, f, k, e)) ↦ elim t [
            | inl t ↦ inl (k t)
            | inr (a, b, c) ↦
                elim (le_or_lt config.position_mismatch_cycles (suc o.reconciler_cycles_failed)) [
                  | inl enough ↦ inl (e enough)
                  | inr more ↦
                      inr (
                        omega (arith, x),
                        omega (arith, b, x, f, due n o d),
                        omega (arith, more, f),
                      )
                ]
          ]
        ]))

  -- A lasting disagreement halts the desk: let a fresh loop run with a reconciler, without a publisher,
  -- and let every tick go through and leave ledgers that differ from the positions of the broker. If
  -- the run has 60 ticks for each of the failed checks that the configuration asks for, at least one,
  -- then the desk is halted at its end.
  pub drift_halts :
      (outs : List (Outside Handle)) (o : Orchestrator Handle) (config : AuditConfig)
      → o.reconciler ≡ some config
      → o.next_after_reconcile ≡ 0
      → o.reconciler_cycles_failed ≡ 0
      → 1 ≤ config.position_mismatch_cycles
      → config.position_mismatch_cycles * 60 ≤ length outs
      → AllDrift outs 0 (record o { running = true })
      → is_halted (run outs o).0 ≡ true
  unfolding run
  drift_halts outs o config r x f one long h =
      run_ticks_halts outs 0 (record o { running = true }) config r refl h
        (inr (omega (arith, x), omega (arith, long, x, f), omega (arith, one, f)))
