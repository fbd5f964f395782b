-- ===== src/Authz.antt =====
-- internal/authz: relation tuples on channels and templates. `Decide` has the decision, `Check` the
-- checks and the listings, `Grants` the operations on grants; the other children have the proofs.
pub mod Decide
pub mod Check
pub mod Grants
pub mod Soundness
pub mod Escalation
pub mod Granting
pub mod Listing
