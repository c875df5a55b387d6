-- ===== src/Tests/Writer.antt =====
-- Applications of a plan: one that succeeds, and one whose move fails.
use m_host.Common.{
  Text, ◌≤◌, true, false, some, List, [], ◌∷◌, ◌≡◌, refl, arith, length, split_inclusive, eqb, trim,
  is_whitespace, len, char_len, slice_to, slice_from,
}
use m_host.Common.Result.{ok, err}
use m_host.Core.Errors.{io}
use m_host.Hosts.ManagedBlock.{
  extract_managed_block_bytes, close, scan_bytes, note, mark_of, is_line_break,
}
use m_host.Apply.Content.{build_hosts_content, place_block, replace_block}
use m_host.Apply.Verification.{verify}
use m_host.Apply.Writer.{
  Backup, System, Platform, regular, max_backups, prune_old_backups, put_backup, create_backup,
  read_backup, optional_backup, write_new, write_backed, apply_with_content, backup_of,
}
use m_host.Apply.Writer.Backups.{prune_old_backups-length}
use m_host.Apply.Writer.Restored.{KeptOrLeft, apply_with_content-writes, apply_with_content-keeps}
use m_host.Tests.Addresses.{test_addresses}
use m_host.Tests.Apply.{hosts_file, plan, hosts_file-IsTidy, plan-Writable}

abbrev host : Platform
host = record {
  now = 3;
  moves = true;
  moves_back = true;
  left = λ t f. regular [];
  backs_up = true;
  deletes = λ b. true;
}

abbrev system : System
system = record { hosts_file = regular hosts_file; backups = [] }

backed_up : (optional_backup plan.backup_required host hosts_file system).0 ≡ ok (some 3)
unfolding create_backup prune_old_backups put_backup
backed_up = refl

apply_with_content-writes_example :
    (written : Text) × (build_hosts_content hosts_file plan ≡ some written)
    × (verify written plan ≡ ok tt)
    × (apply_with_content host plan hosts_file system
        ≡ some (
          ok (some 3),
          record (optional_backup plan.backup_required host hosts_file system).1 {
            hosts_file = regular written;
          },
        ))
apply_with_content-writes_example =
    apply_with_content-writes host plan hosts_file system (some 3) hosts_file-IsTidy (λ e. cc)
      plan-Writable refl backed_up refl

abbrev stuck : Platform
stuck = record host { moves = false }

-- The copy was cut short.
abbrev kept : System
kept = record { hosts_file = regular []; backups = backup_of 3 hosts_file ∷ [] }

fails : apply_with_content stuck plan hosts_file system ≡ some (err io, kept)
unfolding apply_with_content write_backed write_new create_backup prune_old_backups put_backup
    build_hosts_content place_block replace_block extract_managed_block_bytes close scan_bytes note
    mark_of is_line_break split_inclusive eqb trim is_whitespace len char_len slice_to slice_from
fails = refl

apply_with_content-keeps_example :
    (read_backup 3 kept.backups ≡ ok hosts_file) × KeptOrLeft stuck plan hosts_file kept.hosts_file
apply_with_content-keeps_example =
    apply_with_content-keeps stuck plan hosts_file system kept io refl refl refl (omega arith) refl
      fails

abbrev many : List Backup
many =
    backup_of 1 []
    ∷ backup_of 2 []
    ∷ backup_of 3 []
    ∷ backup_of 4 []
    ∷ backup_of 5 []
    ∷ backup_of 6 []
    ∷ backup_of 7 []
    ∷ backup_of 8 []
    ∷ backup_of 9 []
    ∷ backup_of 10 []
    ∷ backup_of 11 []
    ∷ []

prune_old_backups-length_example :
    ((prune_old_backups (λ b. true) many).0 ≡ ok tt)
    × (length (prune_old_backups (λ b. true) many).1 ≤ max_backups)
prune_old_backups-length_example = prune_old_backups-length (λ b. true) many (λ b. refl)
