-- ===== src/Halt/Effective.antt =====
-- The effective halt: system or organisation.
use trading_strands.Prelude.{
  ℕ, String, ◌≡◌, ap, ◌∙◌, Bool, true, List, [], ◌∷◌, ◌==◌, ◌||◌, arith, if◌then◌else◌, All,
}
use trading_strands.Prelude.Dict.{get-put}
use trading_strands.Halt.Store.{
  HaltState, HaltTable, Write, org_halt, system_halt, get_org_state, get_system_state, set_org_halt,
  set_system_halt, is_org_halted, is_system_halted, is_effective_halted, get_effective_reason,
  apply, apply_all,
}

pub org_halted-set_org_halt :
    (o p : String) (h : Bool) (r : String) (n : ℕ) (t : HaltTable)
    → is_org_halted (set_org_halt o h r n t) p ≡ (if o == p then h else is_org_halted t p)
unfolding set_org_halt get_org_state
org_halted-set_org_halt o p h r n t =
    ground
      (arith, get-put t.org_rows o p (record { desk_halted = h; halt_reason = r; updated_at = n }))

pub system_halted-set_org_halt :
    (o : String) (h : Bool) (r : String) (n : ℕ) (t : HaltTable)
    → get_system_state (set_org_halt o h r n t) ≡ get_system_state t
unfolding set_org_halt get_system_state
system_halted-set_org_halt o h r n t = ground arith

pub system_halted-set_system_halt :
    (h : Bool) (r : String) (n : ℕ) (t : HaltTable) → is_system_halted (set_system_halt h r n t) ≡ h
unfolding set_system_halt get_system_state
system_halted-set_system_halt h r n t = ground arith

pub org_halted-set_system_halt :
    (h : Bool) (r : String) (n : ℕ) (t : HaltTable) (p : String)
    → get_org_state (set_system_halt h r n t) p ≡ get_org_state t p
unfolding set_system_halt get_org_state
org_halted-set_system_halt h r n t p = ground arith

-- A write for one organisation decides that organisation's flag under the system flag, and leaves
-- every other organisation as it was.
effective-set_org_halt :
    (o p : String) (h : Bool) (r : String) (n : ℕ) (t : HaltTable)
    → is_effective_halted (set_org_halt o h r n t) p
      ≡ (if o == p then is_system_halted t || h else is_effective_halted t p)
unfolding is_effective_halted
effective-set_org_halt o p h r n t =
    ground (arith, org_halted-set_org_halt o p h r n t, system_halted-set_org_halt o h r n t)

-- The write is one for an organisation.
abbrev pub IsOrgWrite : Write → Type 0
IsOrgWrite (org_halt o h r n) = Unit {0}
IsOrgWrite (system_halt h r n) = ⊥

-- While the system is halted, no writes for organisations release any organisation, and the
-- reason that each sees stays the system's.
pub org_writes_keep_system_halt :
    (ws : List Write) (t : HaltTable) (o : String)
    → All IsOrgWrite ws
    → is_system_halted t ≡ true
    → (is_effective_halted (apply_all ws t) o ≡ true)
      × (get_effective_reason (apply_all ws t) o ≡ (get_system_state t).reason)
unfolding apply_all apply
org_writes_keep_system_halt [] t o a h =
    unfold is_effective_halted get_effective_reason in ground arith
org_writes_keep_system_halt (org_halt p k r n ∷ ws) t o a h =
    let same = system_halted-set_org_halt p k r n t in
    rw (← same) (
      org_writes_keep_system_halt ws (set_org_halt p k r n t) o a.1
        (ap (λ (x : HaltState). x.halted) same ∙ h))
org_writes_keep_system_halt (system_halt k r n ∷ ws) t o a h = absurd a.0
