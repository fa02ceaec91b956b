-- ===== src/Groups.antt =====
-- Chat groups (internal/groups): the manager's groups and the message ids that each has seen. Every
-- method is a step from one manager to the next; the lock makes each critical section one step. A
-- pointer in `groups` is never nil, since only CreateGroup and LoadFromStore write there.
pub mod State
pub mod Methods
pub mod Routing
pub mod Invariant
pub mod Pruning
pub mod Keeps
pub mod Reach
pub mod Membership
pub mod Delivery
pub mod Persistence
pub mod Restored
