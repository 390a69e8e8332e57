-- ===== src/Orchestrator/Names.antt =====
-- The keys of a context, which orchestrator/engine.py builds from texts.
use Prim.Native.String.{String, ◌++◌}

unfoldable pub price_key : String → String
price_key symbol = "price." ++ symbol
