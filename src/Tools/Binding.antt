-- ===== src/Tools/Binding.antt =====
-- Which tools a strategy is given, and what a fan-out reaches.
use trading_strands.Prelude.{
  ℕ, suc, ◌+◌, String, ◌≡◌, refl, ap, Bool, true, false, ◌&&◌, ◌==◌, Option, List, [], ◌∷◌, arith,
  if◌then◌else◌, Option-cases, inl, inr, eq_iff, length,
}
use trading_strands.Prelude.Dict.{put, get-put}
use trading_strands.Tools.{
  OrgToolTable, OrgToolConfig, rows_of, set_enabled, is_enabled, fan_out_review, count_ok,
}

-- A switch for one tool of one organisation decides that tool there, and nothing else.
is_enabled-set_enabled :
    (t : OrgToolTable) (now : ℕ) (org tool org' tool' who : String) (on : Bool)
    → is_enabled (set_enabled t now org tool on who).1 org' tool'
      ≡ (if org == org' && tool == tool' then on else is_enabled t org' tool')
unfolding is_enabled set_enabled rows_of
is_enabled-set_enabled t now org tool org' tool' who on =
    let row : OrgToolConfig = record {
      org_id = org;
      tool_name = tool;
      enabled = on;
      updated_by = who;
      updated_at = now;
    } in
    ground (
      arith,
      get-put t org org' (put (rows_of t org) tool row),
      get-put (rows_of t org) tool tool' row,
      eq_iff org org',
    )

-- One result for every organisation, counted once.
fan_out_review_counts :
    (invoke : String → Option String) (orgs : List String)
    → let rs = fan_out_review invoke orgs in
      (length rs ≡ length orgs) × (count_ok true rs + count_ok false rs ≡ length rs)
unfolding fan_out_review count_ok
fan_out_review_counts invoke [] = (refl, refl)
fan_out_review_counts invoke (o ∷ orgs) =
    let (a, b) = fan_out_review_counts invoke orgs in
    elim (Option-cases (invoke o)) [
      | inl n ↦ (ap suc a, ground (arith, n, b))
      | inr (x, e) ↦ (ap suc a, ground (arith, e, b))
    ]
