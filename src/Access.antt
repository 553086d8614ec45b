-- ===== src/Access.antt =====
-- Who may do what: roles of an identity, rules on spaces and categories, and the decision.
-- security.ts, category-permissions.ts and authorization.service.ts of apps/api/src.
pub mod Roles
pub mod Categories
pub mod Spaces
