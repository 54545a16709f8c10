-- ===== src/Output/Tests/Timestamps.antt =====
-- Timestamps.
use trading_ai_pipeline.Base.{◌≡◌, true, arith}
use trading_ai_pipeline.Output.Stamp.{utc_z, stamp_lt}
use trading_ai_pipeline.Output.Stamp.Order.{text_order_not_chronological}
use trading_ai_pipeline.Output.Tests.{later}

text_order_not_chronological_example :
    stamp_lt (utc_z later) (utc_z (record later { micro = 0 })) ≡ true
text_order_not_chronological_example =
    text_order_not_chronological later (omega arith) (omega arith)
