-- ===== src/Orchestrator/Frame.antt =====
-- What the loop over the bots leaves alone.
use trading_strands.Prelude.{
  ℕ, suc, ◌+◌, String, ◌≡◌, refl, ◌∙◌, true, false, none, some, [], ◌∷◌, arith, ◌≤◌, inl, inr,
  Option-cases, Bool-cases, length,
}
use trading_strands.Prelude.Int.{ℤ}
use trading_strands.Prelude.Dict.{Dict, get, has}
use trading_strands.Decimal.{Decimals}
use trading_strands.Ledger.Model.{Ledger}
use trading_strands.Tta.{
  Outcome, truth, invalid_predicate, bad_value, unknown_operator, unknown_direction,
}
use trading_strands.Coordinator.Types.{TradeIntent, is_idle}
use trading_strands.Coordinator.Model.{
  Services, Execution, done, raised, execution_approved, execute,
}
use trading_strands.Coordinator.Booking.{AreValid, execute-AreValid}
use trading_strands.Coordinator.Frame.{execute-Bounded, execute_known}
use trading_strands.Orchestrator.Model.{
  BotRegistration, Orchestrator, Decision, decide_raises, no_intent, wants, Outside, count_trade,
  wakes, route_intent, woken, dispatch_bot, dispatch,
}

-- What `k` bots can do to the state: the coordinator keeps its halts, its bots and the validity of its
-- ledgers, and sends `k` orders at most; of the loop's own state only the counts of trades change.
pub record Kept {Handle : Type 0} ⦃D : Decimals⦄ (k : ℕ) (o o' : Orchestrator Handle) : Type 0 where
  pub risk : o'.coordinator.risk_manager ≡ o.coordinator.risk_manager
  pub valid : AreValid o.coordinator → AreValid o'.coordinator
  pub known :
      (b : String) → has o.coordinator.ledgers b ≡ true → has o'.coordinator.ledgers b ≡ true
  pub ordered : length o'.coordinator.orders ≤ k + length o.coordinator.orders
  pub bots : o'.bots ≡ o.bots
  pub reconciler : o'.reconciler ≡ o.reconciler
  pub failed : o'.reconciler_cycles_failed ≡ o.reconciler_cycles_failed
  pub next : o'.next_after_reconcile ≡ o.next_after_reconcile
  pub running : o'.running ≡ o.running
  pub context : o'.prev_ctx ≡ o.prev_ctx

module _ {Handle : Type 0} ⦃D : Decimals⦄ where
  nothing : (k : ℕ) (o : Orchestrator Handle) → Kept k o o
  nothing k o = record {
    risk = refl;
    valid = λ v. v;
    known = λ b h. h;
    ordered = omega arith;
    bots = refl;
    reconciler = refl;
    failed = refl;
    next = refl;
    running = refl;
    context = refl;
  }

  Kept-trans :
      (j k n : ℕ) (a b c : Orchestrator Handle) → j + k ≤ n → Kept j a b → Kept k b c → Kept n a c
  Kept-trans j k n a b c h x y = record {
    risk = y.risk ∙ x.risk;
    valid = λ v. y.valid (x.valid v);
    known = λ n h. y.known n (x.known n h);
    ordered = omega (arith, h, x.ordered, y.ordered);
    bots = y.bots ∙ x.bots;
    reconciler = y.reconciler ∙ x.reconciler;
    failed = y.failed ∙ x.failed;
    next = y.next ∙ x.next;
    running = y.running ∙ x.running;
    context = y.context ∙ x.context;
  }

  executed-Kept :
      (s : Services Handle) (i : TradeIntent) (o : Orchestrator Handle)
      → Kept 1 o (record o { coordinator = (execute s i o.coordinator).1 })
  executed-Kept s i o = record {
    risk = (execute-Bounded s i o.coordinator).0;
    valid = λ v. execute-AreValid s i o.coordinator v;
    known = λ b h. execute_known s i o.coordinator b h;
    ordered = omega (arith, (execute-Bounded s i o.coordinator).1);
    bots = refl;
    reconciler = refl;
    failed = refl;
    next = refl;
    running = refl;
    context = refl;
  }

  count_trade-Kept : (x : Execution) (o : Orchestrator Handle) → Kept 0 o (count_trade x o)
  unfolding count_trade
  count_trade-Kept (raised e) o = nothing 0 o
  count_trade-Kept (done r) o = elim (Bool-cases (execution_approved r)) [
    | inl y ↦ rw y (record {
      risk = refl;
      valid = λ v. v;
      known = λ b h. h;
      ordered = omega arith;
      bots = refl;
      reconciler = refl;
      failed = refl;
      next = refl;
      running = refl;
      context = refl;
    })
    | inr n ↦ rw n (record {
      risk = refl;
      valid = λ v. v;
      known = λ b h. h;
      ordered = omega arith;
      bots = refl;
      reconciler = refl;
      failed = refl;
      next = refl;
      running = refl;
      context = refl;
    })
  ]

  route_intent-Kept :
      (out : Outside Handle) (bot : String) (d : Decision) (o : Orchestrator Handle)
      → Kept 1 o (route_intent out bot d o)
  unfolding route_intent
  route_intent-Kept out bot decide_raises o = nothing 1 o
  route_intent-Kept out bot no_intent o = nothing 1 o
  route_intent-Kept out bot (wants i) o = elim (Bool-cases (is_idle i.action)) [
    | inl idle ↦ rw idle (nothing 1 o)
    | inr busy ↦
        let m = record o { coordinator = (execute (out.services bot) i o.coordinator).1 } in
        let x = (execute (out.services bot) i o.coordinator).0 in
        rw busy (
          Kept-trans 1 0 1 o m (count_trade x m) (omega arith)
            (executed-Kept (out.services bot) i o) (count_trade-Kept x m))
  ]

  woken-Kept :
      (out : Outside Handle) (prices : Dict ℤ) (bot : String) (l : Ledger) (e : Outcome)
      (o : Orchestrator Handle)
      → Kept 1 o (woken out prices bot l e o).0
  unfolding woken
  woken-Kept out prices bot l (truth true) o =
      route_intent-Kept out bot (out.callback bot prices l) o
  woken-Kept out prices bot l (truth false) o = nothing 1 o
  woken-Kept out prices bot l invalid_predicate o = nothing 1 o
  woken-Kept out prices bot l bad_value o = nothing 1 o
  woken-Kept out prices bot l unknown_operator o = nothing 1 o
  woken-Kept out prices bot l unknown_direction o = nothing 1 o

  pub dispatch_bot-none :
      (out : Outside Handle) (prices : Dict ℤ) (bot : String) (reg : BotRegistration)
      (o : Orchestrator Handle)
      → get o.coordinator.ledgers bot ≡ none
      → dispatch_bot out prices bot reg o ≡ (o, true)
  unfolding dispatch_bot
  dispatch_bot-none out prices bot reg o n = ground arith

  pub dispatch_bot-some :
      (out : Outside Handle) (prices : Dict ℤ) (bot : String) (reg : BotRegistration) (l : Ledger)
      (o : Orchestrator Handle)
      → get o.coordinator.ledgers bot ≡ some l
      → dispatch_bot out prices bot reg o ≡ woken out prices bot l (wakes reg prices l o.prev_ctx) o
  unfolding dispatch_bot
  dispatch_bot-some out prices bot reg l o e = ground arith

  pub dispatch_bot-Kept :
      (out : Outside Handle) (prices : Dict ℤ) (bot : String) (reg : BotRegistration)
      (o : Orchestrator Handle)
      → Kept 1 o (dispatch_bot out prices bot reg o).0
  dispatch_bot-Kept out prices bot reg o = elim (Option-cases (get o.coordinator.ledgers bot)) [
    | inl n ↦ rw (dispatch_bot-none out prices bot reg o n) (nothing 1 o)
    | inr (l, e) ↦
        rw (dispatch_bot-some out prices bot reg l o e)
          (woken-Kept out prices bot l (wakes reg prices l o.prev_ctx) o)
  ]

  pub dispatch-go :
      (out : Outside Handle) (prices : Dict ℤ) (bot : String) (reg : BotRegistration)
      (bots : Dict BotRegistration) (o : Orchestrator Handle)
      → (dispatch_bot out prices bot reg o).1 ≡ true
      → dispatch out prices ((bot, reg) ∷ bots) o
        ≡ dispatch out prices bots (dispatch_bot out prices bot reg o).0
  unfolding dispatch
  dispatch-go out prices bot reg bots o go = ground arith

  pub dispatch-stop :
      (out : Outside Handle) (prices : Dict ℤ) (bot : String) (reg : BotRegistration)
      (bots : Dict BotRegistration) (o : Orchestrator Handle)
      → (dispatch_bot out prices bot reg o).1 ≡ false
      → dispatch out prices ((bot, reg) ∷ bots) o ≡ ((dispatch_bot out prices bot reg o).0, false)
  unfolding dispatch
  dispatch-stop out prices bot reg bots o stop = ground arith

  pub dispatch-Kept :
      (out : Outside Handle) (prices : Dict ℤ) (bots : Dict BotRegistration)
      (o : Orchestrator Handle)
      → Kept (length bots) o (dispatch out prices bots o).0
  dispatch-Kept out prices [] o = unfold dispatch in nothing 0 o
  dispatch-Kept out prices ((bot, reg) ∷ bots) o =
      let m = (dispatch_bot out prices bot reg o).0 in
      let one = dispatch_bot-Kept out prices bot reg o in
      elim (Bool-cases (dispatch_bot out prices bot reg o).1) [
        | inl go ↦ rw (dispatch-go out prices bot reg bots o go) (
            Kept-trans 1 (length bots) (suc (length bots)) o m (dispatch out prices bots m).0
              (omega arith) one (dispatch-Kept out prices bots m))
        | inr stop ↦ rw (dispatch-stop out prices bot reg bots o stop) (
            Kept-trans 1 (length bots) (suc (length bots)) o m m (omega arith) one
              (nothing (length bots) m))
      ]
