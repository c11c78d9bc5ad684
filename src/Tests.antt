-- ===== src/Tests.antt =====
-- Runs of the models at concrete inputs, and the theorems at such inputs.
mod PatternRuns
mod AuthRuns
mod NamespaceRuns
mod WindowRuns
mod HistoryRuns
mod ProtocolRuns
mod StoreRuns
mod EngineRuns
mod ConsumerRuns
mod DedupRuns
mod CallRuns
mod RecoverRuns
mod SweepRuns
