-- ===== src/Coordinator/Types.antt =====
-- src/trading_strands/coordinator/types.py and broker/types.py: intents, decisions and orders. The
-- text of a rejection is kept as data, with the values that the program formats into it.
use trading_strands.Prelude.{String, Bool, true, false, Option}
use trading_strands.Prelude.Int.{ℤ}
use trading_strands.Ledger.Model.{Side, FeeBreakdown}

pub data IntentAction : Type 0 where
  buy sell close hold noop : IntentAction

pub record TradeIntent : Type 0 where
  pub bot_id : String
  pub org_id : String
  pub symbol : String
  pub action : IntentAction
  pub quantity : ℤ
  pub rationale : String

pub data RiskVerdict : Type 0 where
  approved rejected : RiskVerdict

-- the reasons of the risk manager and of the coordinator; the two numbers are the measured share and
-- its limit
pub data Reason : Type 0 where
  no_reason : Reason
  desk_is_halted : Reason
  bot_is_halted : String → Reason
  drawdown_exceeds : ℤ → ℤ → Reason
  daily_loss_exceeds : ℤ → ℤ → Reason
  position_size_exceeds : ℤ → ℤ → Reason
  total_exposure_exceeds : ℤ → ℤ → Reason
  halted : String → Reason
  broker_unavailable : String → Reason

pub record RiskDecision : Type 0 where
  pub verdict : RiskVerdict
  pub intent : TradeIntent
  pub reason : Reason

abbrev pub is_approved : RiskVerdict → Bool
is_approved approved = true
is_approved rejected = false

-- `intent.action in (HOLD, NOOP)`
abbrev pub is_idle : IntentAction → Bool
is_idle hold = true
is_idle noop = true
is_idle _ = false

-- `intent.action in (SELL, CLOSE)`
abbrev pub is_exit : IntentAction → Bool
is_exit sell = true
is_exit close = true
is_exit _ = false

unfoldable pub intent_to_side : IntentAction → Side
intent_to_side sell = Side.sell
intent_to_side close = Side.sell
intent_to_side _ = Side.buy

pub data OrderType : Type 0 where
  market limit : OrderType

pub data OrderStatus : Type 0 where
  pending filled partially_filled rejected cancelled : OrderStatus

pub data TimeInForce : Type 0 where
  day gtc ioc : TimeInForce

pub record OrderRequest : Type 0 where
  pub symbol : String
  pub side : Side
  pub quantity : ℤ
  pub order_type : OrderType
  pub limit_price : Option ℤ
  pub time_in_force : TimeInForce

pub record OrderResult : Type 0 where
  pub order_id : String
  pub status : OrderStatus
  pub filled_quantity : ℤ
  pub filled_price : ℤ
  pub fees : FeeBreakdown
  pub reject_reason : Option String

-- a position as the broker reports it
pub record BrokerPosition : Type 0 where
  pub symbol : String
  pub quantity : ℤ
  pub market_value : ℤ
  pub current_price : ℤ
