-- ===== src/CommandLine.antt =====
-- cli/cli_args.cpp: the command line.
pub mod Args
pub mod Parser
pub mod Laws
pub mod Lines
