-- ===== src/Core/Errors.antt =====
-- src-tauri/crates/mhost-core/src/error.rs: the errors that the modelled code returns. A message
-- that the program formats is left out where the constructor says the same.
use m_host.Common.{Text}
use m_host.Core.Models.{Uuid}

pub data ParseError : Type 0 where
  invalid_ip invalid_domain malformed_line : Text → ParseError

-- What a verification of a written hosts file can report.
pub data VerifyError : Type 0 where
  unexpected_block block_missing : VerifyError
  rule_missing : Text → VerifyError

-- The variants of `StorageError` that the profile operations return.
pub data StorageError : Type 0 where
  io_failed manifest_corrupted : StorageError
  profile_not_found : Uuid → StorageError

-- What the writer of the hosts file returns as `MhostError`.
pub data WriteError : Type 0 where
  io invalid_input no_backup prune_failed mismatch : WriteError
  verification_failed : VerifyError → WriteError
  rollback_failed : VerifyError → WriteError
