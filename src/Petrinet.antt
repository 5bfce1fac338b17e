-- ===== src/Petrinet.antt =====
-- petrus/impetus/petrinet: the net kernel.
pub mod Token
pub mod Queue
pub mod Marking
pub mod Schema
pub mod Net
pub mod Path
pub mod Enabledness
pub mod Firing
