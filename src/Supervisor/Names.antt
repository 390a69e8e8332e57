-- ===== src/Supervisor/Names.antt =====
-- The names that supervisor/strategy_supervisor.py builds from texts.
use Prim.Native.String.{String, ◌++◌, len, slice}
use text.Mathlib.Text.{starts_with}
use trading_strands.Prelude.{Bool, if◌then◌else◌}

unfoldable pub service_name_for : String → String
service_name_for strategy_id = "ts-strategy-" ++ strategy_id

unfoldable pub task_family_for : String → String → String
task_family_for base strategy_id = base ++ ("-" ++ strategy_id)

-- `pk.startswith("STRATEGY#")`
unfoldable pub is_strategy : String → Bool
is_strategy pk = starts_with pk "STRATEGY#"

-- `pk.removeprefix("STRATEGY#")`
unfoldable pub remove_prefix : String → String
unfolding is_strategy
remove_prefix pk = if is_strategy pk then slice pk (len "STRATEGY#") (len pk) else pk
