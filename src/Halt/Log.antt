-- ===== src/Halt/Log.antt =====
-- The audit log: a transition for each change of a flag, and no other.
use trading_strands.Prelude.{
  ℕ, String, ◌≡◌, refl, sym, ◌∙◌, ap, Bool, true, false, not, none, some, List, [], ◌∷◌, ◌++◌, ◌==◌,
  append_assoc, append-nil, arith, if◌then◌else◌,
}
use trading_strands.Prelude.Dict.{get}
use trading_strands.Halt.Store.{
  HaltState, HaltTable, HaltEvent, system, org, Write, org_halt, system_halt, same_flag, or_none,
  get_org_state, get_system_state, set_org_halt, set_system_halt, is_org_halted, is_system_halted,
  apply, apply_all, new_table,
}
use trading_strands.Halt.Effective.{
  org_halted-set_org_halt, system_halted-set_org_halt, system_halted-set_system_halt,
  org_halted-set_system_halt,
}
use trading_strands.Halt.Audit.{
  IsAudited, new_table-IsAudited, IsAudited-apply_all, events-set_org_halt, events-set_system_halt,
}

-- The transition of a write for an organisation; an empty reason or id is left out.
abbrev org_transition : String → Bool → String → ℕ → HaltEvent
org_transition o h r n = record {
  ts = n;
  scope = org;
  halted = h;
  reason = if r == "" then none else some r;
  org_id = if o == "" then none else some o;
}

-- The transition of a write for the system.
abbrev system_transition : Bool → String → ℕ → HaltEvent
system_transition h r n = record {
  ts = n;
  scope = system;
  halted = h;
  reason = if r == "" then none else some r;
  org_id = none;
}

-- The transitions of a run of writes, from the flags before it: one for each write that changes its
-- flag, in their order.
unfoldable pub transitions : (String → Bool) → Bool → List Write → List HaltEvent
transitions orgs desk [] = []
transitions orgs desk (org_halt o h r n ∷ ws) =
    let rest = transitions (λ p. if o == p then h else orgs p) desk ws in
    if (if orgs o then h else not h) then rest else org_transition o h r n ∷ rest
transitions orgs desk (system_halt h r n ∷ ws) =
    let rest = transitions orgs h ws in
    if (if desk then h else not h) then rest else system_transition h r n ∷ rest

same_flag-as : (a b : Bool) → same_flag a b ≡ (if a then b else not b)
same_flag-as true true = refl
same_flag-as true false = refl
same_flag-as false true = refl
same_flag-as false false = refl

appended_then :
    (same : Bool) (es rest : List HaltEvent) (e : HaltEvent)
    → (if same then es else es ++ e ∷ []) ++ rest ≡ es ++ (if same then rest else e ∷ rest)
appended_then true es rest e = refl
appended_then false es rest e = append_assoc es (e ∷ []) rest

events-apply_all :
    (ws : List Write) (t : HaltTable) (orgs : String → Bool) (desk : Bool)
    → ((p : String) → orgs p ≡ is_org_halted t p)
    → desk ≡ is_system_halted t
    → (apply_all ws t).events ≡ t.events ++ transitions orgs desk ws
unfolding apply_all apply transitions or_none
events-apply_all [] t orgs desk f d = sym (append-nil t.events)
events-apply_all (org_halt o h r n ∷ ws) t orgs desk f d =
    let t' = set_org_halt o h r n t in
    let rest = transitions (λ p. if o == p then h else orgs p) desk ws in
    events-apply_all ws t' (λ p. if o == p then h else orgs p) desk
      (λ p. ground (arith, f p, org_halted-set_org_halt o p h r n t))
      (d ∙ sym (ap (λ (x : HaltState). x.halted) (system_halted-set_org_halt o h r n t)))
    ∙ ap (λ es. es ++ rest) (events-set_org_halt o h r n t)
    ∙ appended_then (same_flag (is_org_halted t o) h) t.events rest (org_transition o h r n)
    ∙ ap (λ b. t.events ++ (if b then rest else org_transition o h r n ∷ rest))
        (ap (λ x. same_flag x h) (sym (f o)) ∙ same_flag-as (orgs o) h)
events-apply_all (system_halt h r n ∷ ws) t orgs desk f d =
    let t' = set_system_halt h r n t in
    let rest = transitions orgs h ws in
    events-apply_all ws t' orgs h
      (λ p. f p ∙ sym (ap (λ (x : HaltState). x.halted) (org_halted-set_system_halt h r n t p)))
      (sym (system_halted-set_system_halt h r n t))
    ∙ ap (λ es. es ++ rest) (events-set_system_halt h r n t)
    ∙ appended_then (same_flag (is_system_halted t) h) t.events rest (system_transition h r n)
    ∙ ap (λ b. t.events ++ (if b then rest else system_transition h r n ∷ rest))
        (ap (λ x. same_flag x h) (sym d) ∙ same_flag-as desk h)

-- After any writes on an empty table, the audit log has exactly one transition for each write that
-- changed its flag, all flags being off at first, in their order and with the time, the flag, the
-- reason and the organisation of the write; and the last transition that concerns an organisation,
-- or the system, has the flag that its row has, which is off where no transition concerns it.
pub log_agrees :
    (ws : List Write)
    → ((apply_all ws new_table).events ≡ transitions (λ _. false) false ws)
      × IsAudited (apply_all ws new_table)
log_agrees ws = (
  events-apply_all ws new_table (λ _. false) false (λ p. unfold get_org_state get in ground arith)
      (unfold get_system_state in ground arith),
  IsAudited-apply_all ws new_table new_table-IsAudited,
)
