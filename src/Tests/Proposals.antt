-- ===== src/Tests/Proposals.antt =====
-- Tests of the proposals: strategy_proposals/store.py.
use trading_strands.Prelude.{◌≡◌, refl, some, List, [], ◌∷◌}
use trading_strands.Proposals.{
  ProposalStatus, pending, applied, rejected, StrategyProposal, find_key, get_item, get_proposal,
  decide,
}
use trading_strands.Proposals.Decisions.{
  answer, outcome, Step, create_step, decide_step, perform_all, decide-outcome, decision_final,
}

abbrev proposal : ProposalStatus → StrategyProposal
proposal status = record {
  proposal_id = "p1";
  strategy_id = "s1";
  org_id = "acme";
  proposer_agent = "self_critique";
  proposer_agent_id = "run";
  created_at = 7;
  rationale = "";
  proposed_markdown = "";
  status = status;
  decided_by = "";
  decided_at = 0;
}

decide-outcome_example :
    ((decide (proposal pending ∷ []) "s1" "p1" applied "ann" 9).0
      ≡ answer (get_proposal (proposal pending ∷ []) "s1" "p1") applied "ann" 9)
    × (get_proposal (decide (proposal pending ∷ []) "s1" "p1" applied "ann" 9).1 "s1" "p1"
        ≡ outcome (get_proposal (proposal pending ∷ []) "s1" "p1") applied "ann" 9)
decide-outcome_example = decide-outcome (proposal pending ∷ []) "s1" "p1" applied "ann" 9 refl

abbrev steps : List Step
steps =
    decide_step "s1" "p1" applied "bob" 11
    ∷ create_step "s1" "acme" "self_critique" "run" "" "" "p2" 7
    ∷ decide_step "s1" "p2" rejected "bob" 12
    ∷ []

finds_it : get_proposal (proposal rejected ∷ []) "s1" "p1" ≡ some (proposal rejected)
unfolding get_proposal find_key get_item
finds_it = refl

decision_final_example :
    get_proposal (perform_all (proposal rejected ∷ []) steps) "s1" "p1" ≡ some (proposal rejected)
decision_final_example =
    decision_final (proposal rejected ∷ []) steps "s1" "p1" (proposal rejected) finds_it refl
      (tt, (refl, (tt, tt)))
