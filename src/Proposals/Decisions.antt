-- ===== src/Proposals/Decisions.antt =====
-- A proposal is decided once.
use trading_strands.Prelude.{
  ℕ, String, ◌≡◌, refl, sym, ◌∙◌, ap, true, false, Option, none, some, List, [], ◌∷◌, ◌==◌, ◌&&◌,
  All, arith, if◌then◌else◌, Bool-cases, Option-cases, inl, inr, eq_iff, eq_refl,
}
use trading_strands.Proposals.{
  ProposalStatus, pending, applied, rejected, StrategyProposal, ProposalTable, Key, key_of,
  same_status, put_proposal, create, find_key, get_item, get_proposal, Decided, decided,
  back_to_pending, not_found, condition_failed, mark, update_pending, decide,
}

-- `get` in one pass
first_of : ProposalTable → String → String → Option StrategyProposal
first_of [] s i = none
first_of (p ∷ t) s i = if p.strategy_id == s && p.proposal_id == i then some p else first_of t s i

find_key-first_of :
    (t : ProposalTable) (s i : String)
    → find_key t s i
      ≡ elim (first_of t s i) as (λ _. Option Key) [ none ↦ none | some p ↦ some (key_of p) ]
unfolding find_key first_of
find_key-first_of [] s i = refl
find_key-first_of (p ∷ t) s i = ground (arith, find_key-first_of t s i)

first_of-ids :
    (t : ProposalTable) (s i : String) (p : StrategyProposal)
    → first_of t s i ≡ some p
    → (p.strategy_id ≡ s) × (p.proposal_id ≡ i)
unfolding first_of
first_of-ids [] s i p h = ground arith
first_of-ids (q ∷ t) s i p h = elim (Bool-cases (q.strategy_id == s && q.proposal_id == i)) [
  | inl y ↦ ground (arith, h, y, eq_iff q.strategy_id s, eq_iff q.proposal_id i)
  | inr n ↦ first_of-ids t s i p (rw n at h)
]

-- the row found under the ids is the row under its key
get_item-key_of :
    (t : ProposalTable) (s i : String) (p : StrategyProposal)
    → first_of t s i ≡ some p
    → get_item t (key_of p) ≡ some p
unfolding first_of get_item
get_item-key_of [] s i p h = ground arith
get_item-key_of (q ∷ t) s i p h =
    let (ps, pi) = first_of-ids (q ∷ t) s i p h in
    elim (Bool-cases (q.strategy_id == s && q.proposal_id == i)) [
      | inl y ↦ ground (arith, h, y, eq_refl p.strategy_id, eq_refl p.proposal_id)
      | inr n ↦ ground (arith, n, ps, pi, get_item-key_of t s i p (rw n at h))
    ]

get_proposal-first_of : (t : ProposalTable) (s i : String) → get_proposal t s i ≡ first_of t s i
unfolding get_proposal
get_proposal-first_of t s i = elim (Option-cases (first_of t s i)) [
  | inl n ↦ ground (arith, n, find_key-first_of t s i)
  | inr (p, e) ↦ ground (arith, e, find_key-first_of t s i, get_item-key_of t s i p e)
]

module _ (status : ProposalStatus) (who : String) (now : ℕ) where
  update_pending-pending :
      (t : ProposalTable) (s i : String) (p : StrategyProposal)
      → first_of t s i ≡ some p
      → same_status p.status pending ≡ true
      → ((update_pending t (key_of p) status who now).0 ≡ decided (mark status who now p))
        × (first_of (update_pending t (key_of p) status who now).1 s i
            ≡ some (mark status who now p))
  unfolding first_of update_pending
  update_pending-pending [] s i p h y = ground arith
  update_pending-pending (q ∷ t) s i p h y =
      let (ps, pi) = first_of-ids (q ∷ t) s i p h in
      elim (Bool-cases (q.strategy_id == s && q.proposal_id == i)) [
        | inl m ↦ (
          ground (arith, h, y, m, eq_refl p.strategy_id, eq_refl p.proposal_id),
          ground (arith, h, y, m, eq_refl p.strategy_id, eq_refl p.proposal_id),
        )
        | inr n ↦
            let (a, b) = update_pending-pending t s i p (rw n at h) y in
            (ground (arith, n, ps, pi, a), ground (arith, n, ps, pi, b))
      ]

  update_pending-decided :
      (t : ProposalTable) (s i : String) (p : StrategyProposal)
      → first_of t s i ≡ some p
      → same_status p.status pending ≡ false
      → update_pending t (key_of p) status who now ≡ (condition_failed, t)
  unfolding first_of update_pending
  update_pending-decided [] s i p h y = ground arith
  update_pending-decided (q ∷ t) s i p h y =
      let (ps, pi) = first_of-ids (q ∷ t) s i p h in
      elim (Bool-cases (q.strategy_id == s && q.proposal_id == i)) [
        | inl m ↦ ground (arith, h, y, m, eq_refl p.strategy_id, eq_refl p.proposal_id)
        | inr n ↦ ground (arith, n, ps, pi, update_pending-decided t s i p (rw n at h) y)
      ]

  update_pending-other :
      (t : ProposalTable) (k : Key) (s i : String)
      → (k.strategy_id == s && k.proposal_id == i) ≡ false
      → first_of (update_pending t k status who now).1 s i ≡ first_of t s i
  unfolding first_of update_pending
  update_pending-other [] k s i h = refl
  update_pending-other (q ∷ t) k s i h = ground (
    arith,
    h,
    update_pending-other t k s i h,
    eq_iff q.strategy_id k.strategy_id,
    eq_iff q.proposal_id k.proposal_id,
  )

put_proposal-other :
    (t : ProposalTable) (p : StrategyProposal) (s i : String)
    → (p.proposal_id == i) ≡ false
    → first_of (put_proposal t p) s i ≡ first_of t s i
unfolding first_of put_proposal
put_proposal-other [] p s i h = ground arith
put_proposal-other (q ∷ t) p s i h =
    ground (arith, h, put_proposal-other t p s i h, eq_iff q.proposal_id p.proposal_id)

decide-pending :
    (t : ProposalTable) (s i : String) (status : ProposalStatus) (who : String) (now : ℕ)
    → same_status status pending ≡ true
    → decide t s i status who now ≡ (back_to_pending, t)
unfolding decide
decide-pending t s i pending who now h = refl
decide-pending t s i applied who now h = ground arith
decide-pending t s i rejected who now h = ground arith

decide-none :
    (t : ProposalTable) (s i : String) (status : ProposalStatus) (who : String) (now : ℕ)
    → same_status status pending ≡ false
    → first_of t s i ≡ none
    → decide t s i status who now ≡ (not_found, t)
unfolding decide
decide-none t s i pending who now h n = ground arith
decide-none t s i applied who now h n = ground (arith, find_key-first_of t s i)
decide-none t s i rejected who now h n = ground (arith, find_key-first_of t s i)

decide-some :
    (t : ProposalTable) (s i : String) (status : ProposalStatus) (who : String) (now : ℕ)
    (p : StrategyProposal)
    → same_status status pending ≡ false
    → first_of t s i ≡ some p
    → decide t s i status who now ≡ update_pending t (key_of p) status who now
unfolding decide
decide-some t s i pending who now p h n = ground arith
decide-some t s i applied who now p h n = ground (arith, find_key-first_of t s i)
decide-some t s i rejected who now p h n = ground (arith, find_key-first_of t s i)

-- the row with the decision, its author and its time, and nothing else changed
abbrev pub decided_row : StrategyProposal → ProposalStatus → String → ℕ → StrategyProposal
decided_row p status who now = record {
  proposal_id = p.proposal_id;
  strategy_id = p.strategy_id;
  org_id = p.org_id;
  proposer_agent = p.proposer_agent;
  proposer_agent_id = p.proposer_agent_id;
  created_at = p.created_at;
  rationale = p.rationale;
  proposed_markdown = p.proposed_markdown;
  status = status;
  decided_by = who;
  decided_at = now;
}

-- what `decide` answers about the row it finds
abbrev pub answer : Option StrategyProposal → ProposalStatus → String → ℕ → Decided
answer none status who now = not_found
answer (some p) status who now =
    if same_status p.status pending
    then decided (decided_row p status who now)
    else condition_failed

-- the row afterwards
abbrev pub outcome : Option StrategyProposal → ProposalStatus → String → ℕ → Option StrategyProposal
outcome none status who now = none
outcome (some p) status who now =
    if same_status p.status pending then some (decided_row p status who now) else some p

-- Asked to apply or reject, the store answers, if it finds the proposal pending, with its row with that
-- status, the author and the time of the decision and no other change, and with an
-- error if it finds none or a decided one; a lookup then finds the decided row in the first case,
-- and what it found before in the others.
pub decide-outcome :
    (t : ProposalTable) (s i : String) (status : ProposalStatus) (who : String) (now : ℕ)
    → same_status status pending ≡ false
    → ((decide t s i status who now).0 ≡ answer (get_proposal t s i) status who now)
      × (get_proposal (decide t s i status who now).1 s i
          ≡ outcome (get_proposal t s i) status who now)
decide-outcome t s i status who now h = elim (Option-cases (first_of t s i)) [
  | inl n ↦ rw (decide-none t s i status who now h n, get_proposal-first_of t s i, n) (refl, refl)
  | inr (p, e) ↦
      rw (decide-some t s i status who now p h e, get_proposal-first_of t s i, e)
        (elim (Bool-cases (same_status p.status pending)) [
          | inl y ↦
              let (a, b) = update_pending-pending status who now t s i p e y in
              (
                ground (arith, a, y),
                get_proposal-first_of (update_pending t (key_of p) status who now).1 s i
                    ∙ b
                    ∙ ground (arith, y),
              )
          | inr n ↦
              let d = update_pending-decided status who now t s i p e n in
              (
                ground (arith, d, n),
                get_proposal-first_of (update_pending t (key_of p) status who now).1 s i
                    ∙ ap (λ r. first_of r.1 s i) d
                    ∙ e
                    ∙ ground (arith, n),
              )
        ])
]

-- A call of the store that writes.
pub data Step : Type 0 where
  create_step : String → String → String → String → String → String → String → ℕ → Step
  decide_step : String → String → ProposalStatus → String → ℕ → Step

pub perform : ProposalTable → Step → ProposalTable
perform t (create_step s org agent agent_id why text new_id now) =
    (create t s org agent agent_id why text new_id now).1
perform t (decide_step s i status who now) = (decide t s i status who now).1

unfoldable pub perform_all : ProposalTable → List Step → ProposalTable
perform_all t [] = t
perform_all t (x ∷ xs) = perform_all (perform t x) xs

-- the id that the step gives to a new proposal differs from the one given
abbrev pub IsFresh : String → Step → Type 0
IsFresh i (create_step s org agent agent_id why text new_id now) = (new_id == i) ≡ false
IsFresh i (decide_step s j status who now) = Unit

perform_keeps :
    (t : ProposalTable) (x : Step) (s i : String) (p : StrategyProposal)
    → first_of t s i ≡ some p
    → same_status p.status pending ≡ false
    → IsFresh i x
    → first_of (perform t x) s i ≡ some p
unfolding perform create
perform_keeps t (create_step s' org agent agent_id why text new_id now) s i p h d f =
    put_proposal-other t _ s i f ∙ h
perform_keeps t (decide_step s' i' status who now) s i p h d f =
    elim (Bool-cases (same_status status pending)) [
      | inl y ↦ ap (λ r. first_of r.1 s i) (decide-pending t s' i' status who now y) ∙ h
      | inr n ↦ elim (Option-cases (first_of t s' i')) [
        | inl m ↦ ap (λ r. first_of r.1 s i) (decide-none t s' i' status who now n m) ∙ h
        | inr (q, e) ↦
            ap (λ r. first_of r.1 s i) (decide-some t s' i' status who now q n e)
            ∙ elim (Bool-cases (q.strategy_id == s && q.proposal_id == i)) [
              | inr other ↦ update_pending-other status who now t (key_of q) s i other ∙ h
              | inl same ↦
                  let (qs, qi) = first_of-ids t s' i' q e in
                  let u : q ≡ p =
                    ground
                      (arith, e, h, same, qs, qi, eq_iff q.strategy_id s, eq_iff q.proposal_id i) in
                  ap (λ r. first_of r.1 s i)
                    (update_pending-decided status who now t s' i' q e (rw u d))
                  ∙ h
            ]
      ]
    ]

-- A decision is final: once a lookup finds a proposal applied or rejected, every later lookup finds the same
-- row, whatever is created under other ids and decided in between.
pub decision_final :
    (t : ProposalTable) (xs : List Step) (s i : String) (p : StrategyProposal)
    → get_proposal t s i ≡ some p
    → same_status p.status pending ≡ false
    → All (IsFresh i) xs
    → get_proposal (perform_all t xs) s i ≡ some p
unfolding perform_all
decision_final t [] s i p h d f = h
decision_final t (x ∷ xs) s i p h d (f, fs) =
    decision_final (perform t x) xs s i p
      (get_proposal-first_of (perform t x) s i
        ∙ perform_keeps t x s i p (sym (get_proposal-first_of t s i) ∙ h) d f)
      d fs
