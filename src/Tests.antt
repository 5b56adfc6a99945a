-- ===== src/Tests.antt =====
-- The tests of the development, and the theorems at concrete inputs.
mod Ledgers
mod Codecs
mod ServiceSample
mod ServiceRuns
mod ServiceExamples
mod ClientSample
mod ClientExamples
mod WireExamples
mod RuntimeExamples
mod NodeExamples
mod CycleExamples
mod ContractExamples
mod StartExamples
mod NetworkExamples
mod StaleAnswers
mod AuthorityExamples
mod RelayExamples
mod MockExamples
