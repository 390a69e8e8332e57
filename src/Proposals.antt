-- ===== src/Proposals.antt =====
-- The proposed edits of strategies: strategy_proposals/store.py. A row's key is kept as the strategy,
-- the time and the id that it is made of; the id and the time of a call are arguments.
pub mod Decisions
use trading_strands.Prelude.{
  ℕ, zero, suc, String, Bool, true, false, Option, none, some, List, [], ◌∷◌, ◌==◌, ◌&&◌, leb, eqb,
  if◌then◌else◌,
}

pub data ProposalStatus : Type 0 where
  pending applied rejected : ProposalStatus

pub record StrategyProposal : Type 0 where
  pub proposal_id : String
  pub strategy_id : String
  pub org_id : String
  pub proposer_agent : String
  pub proposer_agent_id : String
  pub created_at : ℕ
  pub rationale : String
  pub proposed_markdown : String
  pub status : ProposalStatus
  pub decided_by : String
  pub decided_at : ℕ

-- the rows whose key starts with `STRATEGYPROPOSAL#`, in the order of a scan
abbrev pub ProposalTable : Type 0
ProposalTable = List StrategyProposal

pub record Key : Type 0 where
  pub strategy_id : String
  pub created_at : ℕ
  pub proposal_id : String

abbrev pub key_of : StrategyProposal → Key
key_of p = record {
  strategy_id = p.strategy_id;
  created_at = p.created_at;
  proposal_id = p.proposal_id;
}

abbrev pub has_key : Key → StrategyProposal → Bool
has_key k p =
    p.strategy_id == k.strategy_id
    && (eqb p.created_at k.created_at && p.proposal_id == k.proposal_id)

abbrev pub same_status : ProposalStatus → ProposalStatus → Bool
same_status pending pending = true
same_status applied applied = true
same_status rejected rejected = true
same_status _ _ = false

-- `put_item`
unfoldable pub put_proposal : ProposalTable → StrategyProposal → ProposalTable
put_proposal [] p = p ∷ []
put_proposal (q ∷ t) p =
    let rest = put_proposal t p in if has_key (key_of p) q then p ∷ t else q ∷ rest

unfoldable pub create :
    ProposalTable
    → String
    → String
    → String
    → String
    → String
    → String
    → String
    → ℕ
    → StrategyProposal × ProposalTable
unfolding put_proposal
create t strategy_id org_id proposer_agent proposer_agent_id rationale proposed_markdown new_id
      now =
    let p : StrategyProposal = record {
      proposal_id = new_id;
      strategy_id = strategy_id;
      org_id = org_id;
      proposer_agent = proposer_agent;
      proposer_agent_id = proposer_agent_id;
      created_at = now;
      rationale = rationale;
      proposed_markdown = proposed_markdown;
      status = pending;
      decided_by = "";
      decided_at = 0;
    } in
    (p, put_proposal t p)

-- `_find_pk`
unfoldable pub find_key : ProposalTable → String → String → Option Key
find_key [] strategy_id proposal_id = none
find_key (p ∷ t) strategy_id proposal_id =
    if p.strategy_id == strategy_id && p.proposal_id == proposal_id
    then some (key_of p)
    else find_key t strategy_id proposal_id

-- `get_item`
unfoldable pub get_item : ProposalTable → Key → Option StrategyProposal
get_item [] k = none
get_item (p ∷ t) k = if has_key k p then some p else get_item t k

-- `get`; `None` stands for `ProposalNotFoundError`
unfoldable pub get_proposal : ProposalTable → String → String → Option StrategyProposal
unfolding find_key get_item
get_proposal t strategy_id proposal_id = elim (find_key t strategy_id proposal_id) [
  | none ↦ none
  | some k ↦ get_item t k
]

-- the rows of a strategy, in one status or in any
unfoldable pub select : String → Option ProposalStatus → ProposalTable → List StrategyProposal
select strategy_id status [] = []
select strategy_id status (p ∷ t) =
    let rest = select strategy_id status t in
    if p.strategy_id == strategy_id && wanted status p.status then p ∷ rest else rest
  where
    wanted : Option ProposalStatus → ProposalStatus → Bool
    wanted none s = true
    wanted (some w) s = same_status s w

-- `entries.sort(key=created_at, reverse=True)`: stable, the newest first
unfoldable pub insert_proposal : StrategyProposal → List StrategyProposal → List StrategyProposal
insert_proposal p [] = p ∷ []
insert_proposal p (q ∷ qs) =
    if leb q.created_at p.created_at then p ∷ q ∷ qs else q ∷ insert_proposal p qs

unfoldable pub sort_proposals : List StrategyProposal → List StrategyProposal
unfolding insert_proposal
sort_proposals [] = []
sort_proposals (p ∷ ps) = insert_proposal p (sort_proposals ps)

unfoldable pub take_proposals : ℕ → List StrategyProposal → List StrategyProposal
take_proposals zero ps = []
take_proposals (suc n) [] = []
take_proposals (suc n) (p ∷ ps) = p ∷ take_proposals n ps

unfoldable pub list_for_strategy :
    ProposalTable → String → Option ProposalStatus → ℕ → List StrategyProposal
unfolding select sort_proposals take_proposals
list_for_strategy t strategy_id status limit =
    take_proposals limit (sort_proposals (select strategy_id status t))

-- what `decide` gives: the new row, a `ValueError`, a `ProposalNotFoundError`, or the `ClientError` of a
-- failed condition
pub data Decided : Type 0 where
  decided : StrategyProposal → Decided
  back_to_pending not_found condition_failed : Decided

abbrev pub mark : ProposalStatus → String → ℕ → StrategyProposal → StrategyProposal
mark status who now p = record p { status = status; decided_by = who; decided_at = now }

-- `update_item` under the condition that the row exists and is pending
unfoldable pub update_pending :
    ProposalTable → Key → ProposalStatus → String → ℕ → Decided × ProposalTable
update_pending [] k status who now = (condition_failed, [])
update_pending (p ∷ t) k status who now =
    let (r, t') = update_pending t k status who now in
    if has_key k p
    then (if same_status p.status pending
        then (decided (mark status who now p), mark status who now p ∷ t)
        else (condition_failed, p ∷ t))
    else (r, p ∷ t')

unfoldable pub decide :
    ProposalTable → String → String → ProposalStatus → String → ℕ → Decided × ProposalTable
unfolding find_key update_pending
decide t strategy_id proposal_id pending who now = (back_to_pending, t)
decide t strategy_id proposal_id status who now = elim (find_key t strategy_id proposal_id) [
  | none ↦ (not_found, t)
  | some k ↦ update_pending t k status who now
]
