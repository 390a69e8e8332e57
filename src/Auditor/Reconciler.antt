-- ===== src/Auditor/Reconciler.antt =====
-- src/trading_strands/auditor/reconciler.py. The details of a failed check are kept as data.
use Prim.Native.Nat.{Ordering}
use Prim.Native.String.{compare}
use trading_strands.Prelude.{
  ℕ, String, Bool, true, false, List, [], ◌∷◌, ◌&&◌, if◌then◌else◌, contains, or_else, leb,
}
use trading_strands.Prelude.Int.{ℤ, ◌+ℤ◌, ◌-ℤ◌, ltb_ℤ, eqb_ℤ, abs, max_ℤ}
use trading_strands.Prelude.Dict.{Dict, get, put}
use trading_strands.Decimal.{Decimals, zero_ℤ}
use trading_strands.Ledger.Model.{FeeBreakdown, Position, Ledger, total_fees}
use trading_strands.Coordinator.Types.{BrokerPosition}

pub data CheckStatus : Type 0 where
  pass fail : CheckStatus

pub record AuditConfig : Type 0 where
  pub fee_drift_threshold_pct : ℤ
  pub fee_drift_threshold_abs : ℤ
  pub position_mismatch_cycles : ℕ

-- symbol, quantity in the ledgers, quantity at the broker
abbrev pub Mismatch : Type 0
Mismatch = String × ℤ × ℤ

pub data Details : Type 0 where
  no_details : Details
  position_mismatches : List Mismatch → Details
  fee_drift : ℤ → ℤ → ℤ → Details

pub record Check : Type 0 where
  pub status : CheckStatus
  pub details : Details

pub record AuditResult : Type 0 where
  pub position_check : Check
  pub fee_check : Check
  pub kill_switch_triggered : Bool

abbrev pub is_pass : CheckStatus → Bool
is_pass pass = true
is_pass fail = false

unfoldable pub all_passed : AuditResult → Bool
all_passed r = is_pass r.position_check.status && is_pass r.fee_check.status

abbrev pub passed : Check
passed = record { status = pass; details = no_details }

-- `totals.get(symbol, Decimal("0"))`
abbrev pub total_at : Dict ℤ → String → ℤ
total_at totals symbol = or_else (get totals symbol) zero_ℤ

-- `totals[symbol] = totals.get(symbol, 0) + quantity`
unfoldable pub add_quantity : Dict ℤ → String → ℤ → Dict ℤ
add_quantity totals symbol q = put totals symbol (total_at totals symbol +ℤ q)

unfoldable pub add_positions : Dict ℤ → List Position → Dict ℤ
unfolding add_quantity
add_positions totals [] = totals
add_positions totals (p ∷ ps) = add_positions (add_quantity totals p.symbol p.quantity) ps

unfoldable pub ledger_totals : Dict ℤ → Dict Ledger → Dict ℤ
unfolding add_positions
ledger_totals totals [] = totals
ledger_totals totals ((bot, l) ∷ ls) = ledger_totals (add_positions totals l.open_positions) ls

unfoldable pub broker_totals : Dict ℤ → List BrokerPosition → Dict ℤ
unfolding add_quantity
broker_totals totals [] = totals
broker_totals totals (p ∷ ps) = broker_totals (add_quantity totals p.symbol p.quantity) ps

unfoldable pub keys : Dict ℤ → List String
keys [] = []
keys ((k, v) ∷ d) = k ∷ keys d

-- `set(a) | set(b)`, and `sorted`
unfoldable pub union : List String → List String → List String
union [] ys = ys
union (x ∷ xs) ys = let rest = union xs ys in if contains ys x then rest else x ∷ rest

text_le : String → String → Bool
text_le a b = elim (compare a b) [ Ordering.gt ↦ false | _ ↦ true ]

unfoldable pub insert_text : String → List String → List String
unfolding text_le
insert_text s [] = s ∷ []
insert_text s (x ∷ xs) = if text_le s x then s ∷ x ∷ xs else x ∷ insert_text s xs

unfoldable pub sort_texts : List String → List String
sort_texts [] = []
sort_texts (x ∷ xs) = insert_text x (sort_texts xs)

unfoldable pub mismatches : Dict ℤ → Dict ℤ → List String → List Mismatch
mismatches ledger broker [] = []
mismatches ledger broker (s ∷ ss) =
    let rest = mismatches ledger broker ss in
    if eqb_ℤ (total_at ledger s) (total_at broker s)
    then rest
    else (s, total_at ledger s, total_at broker s) ∷ rest

unfoldable pub report_mismatches : List Mismatch → Check
report_mismatches [] = passed
report_mismatches (m ∷ ms) = record { status = fail; details = position_mismatches (m ∷ ms) }

unfoldable pub reconcile_positions : Dict Ledger → List BrokerPosition → Check
unfolding report_mismatches
reconcile_positions ledgers broker =
    let ledger_side = ledger_totals [] ledgers in
    let broker_side = broker_totals [] broker in
    report_mismatches (
      mismatches ledger_side broker_side (sort_texts (union (keys ledger_side) (keys broker_side))))

unfoldable pub sum_fees : ℤ → List FeeBreakdown → ℤ
sum_fees acc [] = acc
sum_fees acc (f ∷ fs) = sum_fees (acc +ℤ total_fees f) fs

unfoldable pub recorded_fees : ℤ → Dict Ledger → ℤ
recorded_fees acc [] = acc
recorded_fees acc ((bot, l) ∷ ls) = recorded_fees (sum_fees acc l.fee_ledger) ls

module _ ⦃D : Decimals⦄ where
  unfoldable pub drift_share : ℤ → ℤ → ℤ
  drift_share recorded expected =
      let base = max_ℤ recorded expected in
      if ltb_ℤ zero_ℤ base then D.div (abs (recorded -ℤ expected)) base else zero_ℤ

  unfoldable pub reconcile_fees : AuditConfig → Dict Ledger → List FeeBreakdown → Check
  unfolding drift_share
  reconcile_fees config ledgers expected_fees =
      let recorded = recorded_fees zero_ℤ ledgers in
      let expected = sum_fees zero_ℤ expected_fees in
      let drift = drift_share recorded expected in
      if eqb_ℤ expected zero_ℤ && eqb_ℤ recorded zero_ℤ
      then passed
      else if ltb_ℤ config.fee_drift_threshold_pct drift
      then record { status = fail; details = fee_drift recorded expected drift }
      else passed

unfoldable pub should_kill_switch : AuditConfig → ℤ → ℕ → Bool
should_kill_switch config drift cycles =
    if ltb_ℤ config.fee_drift_threshold_abs drift
    then true
    else leb config.position_mismatch_cycles cycles
