-- ===== src/Orchestrator/Completion.antt =====
-- When a run comes to its end: no exception leaves a tick if the predicates are well formed.
use trading_strands.Prelude.{
  ℕ, suc, ◌+◌, String, ◌≡◌, refl, sym, ◌∙◌, ap, Bool, true, false, false≢true, Option, none, some,
  List, [], ◌∷◌, arith, inl, inr, ◌⊎◌, Option-cases, length, All,
}
use trading_strands.Prelude.Int.{ℤ}
use trading_strands.Prelude.Dict.{Dict, get}
use trading_strands.Decimal.{Decimals}
use trading_strands.Ledger.Model.{Ledger}
use trading_strands.Tta.{Predicate, Context, truth}
use trading_strands.Tta.Meaning.{IsWellFormed}
use trading_strands.Tta.Semantics.{evaluate_decides}
use trading_strands.Orchestrator.Model.{
  Orchestrator, Outside, BotRegistration, wakes, woken, build_context, dispatch_bot, dispatch, tick,
  run_ticks, run,
}
use trading_strands.Orchestrator.Frame.{dispatch_bot-none, dispatch_bot-some, dispatch-go}
use trading_strands.Orchestrator.Ticks.{
  opened, check_remote_halt-frame, without_bots, without_prices, broken, complete, tick-Ticked,
}
use trading_strands.Orchestrator.Running.{tick-Stays, before, run_ticks-goes}

-- A registration without a predicate, or with one that is well formed.
abbrev pub IsSound : BotRegistration → Type 0
IsSound reg = (reg.tta ≡ none) ⊎ ((p : Predicate) × (reg.tta ≡ some p) × IsWellFormed p)

abbrev pub AreSound : Dict BotRegistration → Type 0
AreSound bots = All (λ b. IsSound b.1) bots

module _ ⦃D : Decimals⦄ where
  wakes_decides :
      (reg : BotRegistration) (prices : Dict ℤ) (l : Ledger) (prev : Option Context)
      → IsSound reg
      → (b : Bool) × (wakes reg prices l prev ≡ truth b)
  unfolding wakes
  wakes_decides reg prices l prev (inl n) = (true, ground arith)
  wakes_decides reg prices l prev (inr (p, e, w)) =
      let (b, t) = (evaluate_decides p (build_context prices (some l)) prev w).0 in
      (b, ground (arith, t))

module _ {Handle : Type 0} ⦃D : Decimals⦄ where
  woken-goes :
      (out : Outside Handle) (prices : Dict ℤ) (bot : String) (l : Ledger) (b : Bool)
      (o : Orchestrator Handle)
      → (woken out prices bot l (truth b) o).1 ≡ true
  unfolding woken
  woken-goes out prices bot l true o = refl
  woken-goes out prices bot l false o = refl

  pub dispatch_bot-goes :
      (out : Outside Handle) (prices : Dict ℤ) (bot : String) (reg : BotRegistration)
      (o : Orchestrator Handle)
      → IsSound reg
      → (dispatch_bot out prices bot reg o).1 ≡ true
  dispatch_bot-goes out prices bot reg o w = elim (Option-cases (get o.coordinator.ledgers bot)) [
    | inl n ↦ rw (dispatch_bot-none out prices bot reg o n) refl
    | inr (l, e) ↦
        let (b, t) = wakes_decides reg prices l o.prev_ctx w in
        rw (dispatch_bot-some out prices bot reg l o e, t) (woken-goes out prices bot l b o)
  ]

  pub dispatch-goes :
      (out : Outside Handle) (prices : Dict ℤ) (bots : Dict BotRegistration)
      (o : Orchestrator Handle)
      → AreSound bots
      → (dispatch out prices bots o).1 ≡ true
  dispatch-goes out prices [] o w = unfold dispatch in refl
  dispatch-goes out prices ((bot, reg) ∷ bots) o (w, ws) =
      rw (dispatch-go out prices bot reg bots o (dispatch_bot-goes out prices bot reg o w))
        (dispatch-goes out prices bots (dispatch_bot out prices bot reg o).0 ws)

  pub tick-goes :
      (out : Outside Handle) (n : ℕ) (o : Orchestrator Handle)
      → AreSound o.bots
      → (tick out n o).1 ≡ true
  tick-goes out n o w = elim (tick-Ticked out n o) [
    | without_bots empty end ↦ ap (λ r. r.1) end
    | without_prices blind end ↦ ap (λ r. r.1) end
    | broken p fails end ↦ absurd (
        false≢true (
          sym fails
          ∙ dispatch-goes out p (opened out o).bots (opened out o)
              (rw (check_remote_halt-frame out.remote o).0.bots w)))
    | complete p goes end ↦ ap (λ r. r.1) end
  ]

  run_ticks_end :
      (outs : List (Outside Handle)) (n : ℕ) (o : Orchestrator Handle)
      → AreSound o.bots
      → o.running ≡ true
      → All (λ out. out.stop_before ≡ false) outs
      → ((run_ticks outs n o).1 ≡ n + length outs) × ((run_ticks outs n o).2 ≡ true)
  run_ticks_end [] n o w r h = unfold run_ticks in (omega arith, refl)
  run_ticks_end (out ∷ outs) n o w r (h, hs) =
      let same : before out o ≡ o = ground arith in
      let go = tick-goes out n o w in
      let s = tick-Stays out n o in
      let (end, ok) =
        run_ticks_end outs (suc n) (tick out n o).0 (rw s.bots w) (s.running ∙ r) hs in
      rw (run_ticks-goes out outs n o (rw same r) (rw same go), same) (omega (arith, end), ok)

  -- When the predicate of every registered bot is well formed and nobody asks for a stop, a run goes
  -- through all of its ticks and no exception leaves it, whatever the publisher, the market data,
  -- the callbacks and the brokers answer.
  pub run_completes :
      (outs : List (Outside Handle)) (o : Orchestrator Handle)
      → AreSound o.bots
      → All (λ out. out.stop_before ≡ false) outs
      → ((run outs o).1 ≡ length outs) × ((run outs o).2 ≡ true)
  unfolding run
  run_completes outs o w h =
      let (end, ok) = run_ticks_end outs 0 (record o { running = true }) w refl h in
      (omega (arith, end), ok)
