-- ===== src/Orchestrator/Halting.antt =====
-- What the dashboard's flag and the periodic reconciliation do to the halt of the desk.
use trading_strands.Prelude.{
  ℕ, ◌≡◌, refl, ◌∙◌, ap, Bool, false, Option, none, List, arith, inl, inr, ◌⊎◌,
}
use trading_strands.Prelude.Int.{ℤ}
use trading_strands.Prelude.Dict.{Dict}
use trading_strands.Decimal.{Decimals}
use trading_strands.Coordinator.Types.{BrokerPosition}
use trading_strands.Risk.Manager.{halt_desk, unhalt_desk}
use trading_strands.Orchestrator.Model.{
  Orchestrator, Outside, flag, check_remote_halt, is_due, maybe_reconcile, mark_whatif, dispatch,
  after_bots, tick,
}
use trading_strands.Orchestrator.Frame.{dispatch-Kept}
use trading_strands.Orchestrator.Ticks.{
  opened, check_remote_halt-frame, without_bots, without_prices, broken, complete, tick-Ticked,
}

module _ {Handle : Type 0} where
  abbrev pub is_halted : Orchestrator Handle → Bool
  is_halted o = o.coordinator.risk_manager.desk_halted

  check_remote_halt-flag :
      (b : Bool) (o : Orchestrator Handle) → is_halted (check_remote_halt (flag b) o) ≡ b
  unfolding check_remote_halt halt_desk unhalt_desk
  check_remote_halt-flag b o = ground arith

  pub maybe_reconcile-idle :
      (ps : Option (List BrokerPosition)) (n : ℕ) (o : Orchestrator Handle)
      → (o.reconciler ≡ none) ⊎ (is_due n o ≡ false)
      → maybe_reconcile ps n o ≡ o
  unfolding maybe_reconcile
  maybe_reconcile-idle ps n o (inl e) = ground arith
  maybe_reconcile-idle ps n o (inr e) = ground arith

  -- no reconciliation takes place at the tick
  abbrev pub IsQuiet : ℕ → Orchestrator Handle → Type 0
  IsQuiet n o = (o.reconciler ≡ none) ⊎ (is_due n o ≡ false)

  pub IsQuiet-transfer :
      (n : ℕ) (o o' : Orchestrator Handle)
      → o'.reconciler ≡ o.reconciler
      → o'.next_after_reconcile ≡ o.next_after_reconcile
      → IsQuiet n o
      → IsQuiet n o'
  unfolding is_due
  IsQuiet-transfer n o o' r x (inl e) = inl (r ∙ e)
  IsQuiet-transfer n o o' r x (inr e) = inr (rw x e)

module _ {Handle : Type 0} ⦃D : Decimals⦄ where
  after_bots-quiet :
      (out : Outside Handle) (n : ℕ) (p : Dict ℤ) (o : Orchestrator Handle)
      → IsQuiet n o
      → is_halted (after_bots out n p o) ≡ is_halted o
  unfolding after_bots
  after_bots-quiet out n p o q =
      let m = record o { whatif = mark_whatif p o.whatif } in
      ap is_halted (maybe_reconcile-idle out.positions n m (IsQuiet-transfer n o m refl refl q))

  -- When the dashboard's flag can be read, a tick without a reconciliation leaves the desk halted
  -- exactly if the flag is set: a halt that anything else ordered since is undone before a bot is
  -- woken, and nothing that the bots do changes it.
  pub tick-flag :
      (out : Outside Handle) (n : ℕ) (o : Orchestrator Handle) (b : Bool)
      → out.remote ≡ flag b
      → IsQuiet n o
      → is_halted (tick out n o).0 ≡ b
  tick-flag out n o b f q =
      let (s, _, x) = check_remote_halt-frame out.remote o in
      let set : is_halted (check_remote_halt out.remote o) ≡ b =
        rw f (check_remote_halt-flag b o) in
      elim (tick-Ticked out n o) [
        | without_bots empty end ↦ ap (λ r. is_halted r.0) end ∙ set
        | without_prices blind end ↦ ap (λ r. is_halted r.0) end ∙ set
        | broken p fails end ↦
            let k = dispatch-Kept out p (opened out o).bots (opened out o) in
            ap (λ r. is_halted r.0) end ∙ ap (λ m. m.desk_halted) k.risk ∙ set
        | complete p goes end ↦
            let k = dispatch-Kept out p (opened out o).bots (opened out o) in
            let m = (dispatch out p (opened out o).bots (opened out o)).0 in
            ap (λ r. is_halted r.0) end
            ∙ after_bots-quiet out n p m
                (IsQuiet-transfer n o m (k.reconciler ∙ s.reconciler) (k.next ∙ x) q)
            ∙ ap (λ m. m.desk_halted) k.risk
            ∙ set
      ]
