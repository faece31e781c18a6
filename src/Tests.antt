-- ===== src/Tests.antt =====
-- Each theorem of the list of results, applied to a concrete case.
mod Domain
mod Control
mod Revisions
mod Communication
mod Approvals
mod Gate
mod Relations
mod Recovery
mod Takeover
mod Diff
mod Composer
mod Usage
