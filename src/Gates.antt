-- ===== src/Gates.antt =====
-- gates/: the deterministic gates over facts that are read from the charts. Each gate is a pure
-- function of its inputs.
pub mod Confluence
pub mod Macd
pub mod Range
pub mod DayType
pub mod HtfOverride
pub mod ExpansionLeg
pub mod SignalTier
pub mod TwoStrike
mod Tests
