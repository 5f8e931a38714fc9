-- ===== src/Database.antt =====
-- enova/database/relation: the engines, the router and the sessions of transaction/session.py, and the
-- columns and the base of the models of orm/base.py.
pub mod Engine
pub mod Columns
mod Examples
