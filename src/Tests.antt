-- ===== src/Tests.antt =====
-- The theorems at concrete inputs: a few servers, with functions in lists and containers in lists.
mod Base
mod Machine
mod MapRuns
mod MultimapRuns
mod HashRuns
mod SetRuns
mod QueueRuns
mod PriorityRuns
mod ConfigRuns
mod CharRuns
mod ClockRuns
mod CallbackRuns
mod FactoryRuns
mod PortRuns
mod SegmentRuns
mod HashSegmentRuns
mod SequenceRuns
mod QueueSegmentRuns
