-- ===== src/App.antt =====
-- enova/app/service.py: deployments of models (instances) and traffic tests on them.
pub mod Store
pub mod Escaler
pub mod Payload
pub mod Deploy
pub mod Instances
pub mod Injection
pub mod Report
pub mod Traffic
pub mod System
mod Fixtures
mod Examples
