-- ===== src/Examples.antt =====
-- Concrete inputs for the theorems, one module for each part of the program.
mod Access
mod Audit
mod Approval
mod Excel
mod Review
mod Signatures
mod Sharing
mod Diff
mod Publication
mod Auth
mod Operations
mod Retention
mod Ged
mod Hierarchy
mod Mailbox
mod Timestamps
