-- ===== src/Halt/Audit.antt =====
-- The audit log agrees with the flags.
use trading_strands.Prelude.{
  ℕ, String, ◌≡◌, refl, ◌∙◌, ap, Bool, true, false, none, List, [], ◌∷◌, ◌++◌, ◌==◌, arith, eq_iff,
  if◌then◌else◌, or_else,
}
use trading_strands.Prelude.Dict.{get}
use trading_strands.Halt.Store.{
  HaltState, HaltTable, HaltEvent, system, org, Write, org_halt, system_halt, same_flag, or_none,
  get_org_state, get_system_state, set_org_halt, set_system_halt, is_org_halted, is_system_halted,
  apply, apply_all, new_table,
}
use trading_strands.Halt.Effective.{
  org_halted-set_org_halt, system_halted-set_org_halt, system_halted-set_system_halt,
  org_halted-set_system_halt,
}

-- The flag that a log says, starting from `b`: that of the last event that concerns it.
abbrev concerns_org : String → HaltEvent → Bool
concerns_org o e = elim e.scope [ system ↦ false | org ↦ or_else e.org_id "" == o ]

abbrev concerns_system : HaltEvent → Bool
concerns_system e = elim e.scope [ system ↦ true | org ↦ false ]

pub replay : (HaltEvent → Bool) → Bool → List HaltEvent → Bool
replay concerns b [] = b
replay concerns b (e ∷ es) = replay concerns (if concerns e then e.halted else b) es

replay-append :
    (c : HaltEvent → Bool) (b : Bool) (es : List HaltEvent) (e : HaltEvent)
    → replay c b (es ++ e ∷ []) ≡ (if c e then e.halted else replay c b es)
unfolding replay
replay-append c b [] e = refl
replay-append c b (x ∷ es) e = replay-append c (if c x then x.halted else b) es e

-- The log agrees with the flags.
pub record IsAudited (t : HaltTable) : Type 0 where
  pub orgs : (o : String) → replay (concerns_org o) false t.events ≡ is_org_halted t o
  pub desk : replay concerns_system false t.events ≡ is_system_halted t

id_written : (o p : String) → (or_else (or_none o) "" == p) ≡ (o == p)
unfolding or_none
id_written o p = ground (arith, eq_iff o "")

pub events-set_org_halt :
    (o : String) (h : Bool) (r : String) (n : ℕ) (t : HaltTable)
    → (set_org_halt o h r n t).events ≡ (
        if same_flag (is_org_halted t o) h
        then t.events
        else t.events
          ++ record { ts = n; scope = org; halted = h; reason = or_none r; org_id = or_none o }
            ∷ [])
unfolding set_org_halt
events-set_org_halt o h r n t = ground arith

pub events-set_system_halt :
    (h : Bool) (r : String) (n : ℕ) (t : HaltTable)
    → (set_system_halt h r n t).events ≡ (
        if same_flag (is_system_halted t) h
        then t.events
        else t.events
          ++ record { ts = n; scope = system; halted = h; reason = or_none r; org_id = none } ∷ [])
unfolding set_system_halt
events-set_system_halt h r n t = ground arith

same_flag_eq : (a b : Bool) → same_flag a b ≡ true → a ≡ b
same_flag_eq a b h = ground arith

org_halt-IsAudited :
    (o : String) (h : Bool) (r : String) (n : ℕ) (t : HaltTable)
    → IsAudited t
    → IsAudited (set_org_halt o h r n t)
org_halt-IsAudited o h r n t v =
    let e : HaltEvent = record {
      ts = n;
      scope = org;
      halted = h;
      reason = or_none r;
      org_id = or_none o;
    } in
    let logged = events-set_org_halt o h r n t in
    record {
      orgs = λ p.
          ap (replay (concerns_org p) false) logged
          ∙ ground (
            arith,
            v.orgs p,
            replay-append (concerns_org p) false t.events e,
            id_written o p,
            same_flag_eq (is_org_halted t o) h,
            org_halted-set_org_halt o p h r n t,
            eq_iff o p,
          );
      desk =
          ap (replay concerns_system false) logged
          ∙ ground (
            arith,
            v.desk,
            replay-append concerns_system false t.events e,
            ap (λ (x : HaltState). x.halted) (system_halted-set_org_halt o h r n t),
          );
    }

system_halt-IsAudited :
    (h : Bool) (r : String) (n : ℕ) (t : HaltTable)
    → IsAudited t
    → IsAudited (set_system_halt h r n t)
system_halt-IsAudited h r n t v =
    let e : HaltEvent = record {
      ts = n;
      scope = system;
      halted = h;
      reason = or_none r;
      org_id = none;
    } in
    let logged = events-set_system_halt h r n t in
    record {
      orgs = λ p.
          ap (replay (concerns_org p) false) logged
          ∙ ground (
            arith,
            v.orgs p,
            replay-append (concerns_org p) false t.events e,
            ap (λ (x : HaltState). x.halted) (org_halted-set_system_halt h r n t p),
          );
      desk =
          ap (replay concerns_system false) logged
          ∙ ground (
            arith,
            v.desk,
            replay-append concerns_system false t.events e,
            system_halted-set_system_halt h r n t,
            same_flag_eq (is_system_halted t) h,
          );
    }

pub IsAudited-apply_all :
    (ws : List Write) (t : HaltTable) → IsAudited t → IsAudited (apply_all ws t)
unfolding apply_all apply
IsAudited-apply_all [] t v = v
IsAudited-apply_all (org_halt o h r n ∷ ws) t v =
    IsAudited-apply_all ws (set_org_halt o h r n t) (org_halt-IsAudited o h r n t v)
IsAudited-apply_all (system_halt h r n ∷ ws) t v =
    IsAudited-apply_all ws (set_system_halt h r n t) (system_halt-IsAudited h r n t v)

pub new_table-IsAudited : IsAudited new_table
new_table-IsAudited = unfold get_org_state get_system_state get replay in ground arith
