-- ===== src/Authz.antt =====
-- libs/holon_common/authz.py: class PermissionClient. SpiceDB and OPA are parameters of the model:
-- what they answer to a request, as actions on a world that may raise an HTTP error.
mod Examples
pub mod Cache
pub mod Client
