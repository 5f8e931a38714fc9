-- ===== src/Command.antt =====
-- The command line: enova/common/cli_helper.py and enova/entry/command.
pub mod Args
pub mod Compose
pub mod Service
pub mod Pilot
pub mod Jmeter
mod Examples
