-- ===== src/Apply/Writer.antt =====
-- src-tauri/crates/mhost-apply/src/writer: the writes of the hosts file, with backup, verification
-- and rollback. The platform's moves and the disk's answers are arguments; the flush of the DNS
-- cache, whose failure is only logged, is left out. A backup is named by its second.
pub mod Backups
pub mod Restored
use m_host.Common.{
  Text, ℕ, zero, suc, ◌-◌, ◌==◌, leb, not, Bool, true, false, Option, none, some, List, [], ◌∷◌,
  ◌++◌, if◌then◌else◌, eqb, length, filter, take, drop, and_then,
}
use m_host.Common.Result.{Result, ok, err}
use m_host.Common.Sort.{sort_by}
use m_host.Core.Errors.{
  VerifyError, WriteError, io, invalid_input, no_backup, prune_failed, mismatch,
  verification_failed, rollback_failed,
}
use m_host.Core.Ip.{IpAddr}
use m_host.Core.Models.{ApplyPlan}
use m_host.Apply.Content.{build_hosts_content}
use m_host.Apply.Verification.{verify}

-- What stands at the hosts path: nothing, a regular file, or a link or special file with the text
-- that a read through it gives.
pub data HostsFile : Type 0 where
  missing : HostsFile
  special : Option Text → HostsFile
  regular : Text → HostsFile

pub record Backup : Type 0 where
  pub second : ℕ
  pub modified : ℕ
  pub content : Text

pub record System : Type 0 where
  pub hosts_file : HostsFile
  pub backups : List Backup

-- The answers of the platform and the disk in one run: the elevated move of the new content and of
-- a restored backup, the writing of a backup, and the deletion of each old one. A move is a copy
-- and a deletion, so one that fails may have changed the file: `left` gives what it leaves of it.
pub record Platform : Type 0 where
  pub now : ℕ
  pub moves : Bool
  pub moves_back : Bool
  pub left : Text → HostsFile → HostsFile
  pub backs_up : Bool
  pub deletes : Backup → Bool

abbrev pub Outcome : Type 0 → Type 0
Outcome T = Result WriteError T × System

abbrev pub ensure_regular_file : HostsFile → Result WriteError Unit
ensure_regular_file missing = err io
ensure_regular_file (special _) = err invalid_input
ensure_regular_file (regular t) = ok tt

abbrev pub read_to_string : HostsFile → Result WriteError Text
read_to_string (regular t) = ok t
read_to_string (special (some t)) = ok t
read_to_string _ = err io

-- The write by an elevated move, which replaces the file or fails
abbrev pub atomic_write : Bool → (Text → HostsFile → HostsFile) → Text → System → Outcome Unit
atomic_write false left content s = (err io, record s { hosts_file = left content s.hosts_file })
atomic_write true left content s = (ok tt, record s { hosts_file = regular content })

abbrev pub max_backups : ℕ
max_backups = 10

-- The order of a directory is not fixed: what is left is listed by age.
unfoldable pub prune_old_backups :
    (Backup → Bool) → List Backup → Result WriteError Unit × List Backup
prune_old_backups deletes backups =
    let to_remove = length backups - max_backups in
    let sorted = sort_by (λ a b. leb a.modified b.modified) backups in
    let failed = filter (λ b. not (deletes b)) (take to_remove sorted) in
    if leb (length backups) max_backups then (ok tt, backups) else (
      (if length failed == to_remove then err prune_failed else ok tt),
      failed ++ drop to_remove sorted,
    )

-- The file of this second is created, or truncated and written again.
unfoldable pub put_backup : Backup → List Backup → List Backup
put_backup new [] = new ∷ []
put_backup new (b ∷ bs) =
    let later = put_backup new bs in if b.second == new.second then new ∷ bs else b ∷ later

abbrev pub backup_of : ℕ → Text → Backup
backup_of now content = record { second = now; modified = now; content = content }

abbrev pub named : ℕ → Result WriteError Unit × List Backup → System → Outcome ℕ
named now (ok _, left) s = (ok now, record s { backups = left })
named now (err e, left) s = (err e, record s { backups = left })

unfoldable pub create_backup : Platform → Text → System → Outcome ℕ
unfolding prune_old_backups put_backup
create_backup host content s =
    if not host.backs_up
    then (err io, s)
    else named host.now
        (prune_old_backups host.deletes (put_backup (backup_of host.now content) s.backups)) s

unfoldable pub read_backup : ℕ → List Backup → Result WriteError Text
read_backup at [] = err io
read_backup at (b ∷ bs) =
    let later = read_backup at bs in if b.second == at then ok b.content else later

-- `if rolled_back != backup_content`
abbrev pub compare_back : Text → WriteError → Result WriteError Text → WriteError
compare_back content otherwise (err e) = e
compare_back content otherwise (ok rolled_back) =
    if eqb rolled_back content then otherwise else mismatch

abbrev pub restored : VerifyError → Text → Outcome Unit → WriteError × System
restored why content (err _, s) = (rollback_failed why, s)
restored why content (ok _, s) =
    (compare_back content (verification_failed why) (read_to_string s.hosts_file), s)

-- The answer to a failed verification, where a backup was made
abbrev pub restore : Platform → VerifyError → Result WriteError Text → System → WriteError × System
restore host why (err e) s = (e, s)
restore host why (ok content) s =
    restored why content (atomic_write host.moves_back host.left content s)

abbrev pub fail_with : {T : Type 0} → WriteError × System → Outcome T
fail_with (e, s) = (err e, s)

-- `?` on a call that changes the system
abbrev pub and_next : {T U : Type 0} → Outcome T → (T → System → Outcome U) → Outcome U
and_next (err e, s) next = (err e, s)
and_next (ok t, s) next = next t s

abbrev pub verified : Platform → Option ℕ → Result VerifyError Unit → System → Outcome (Option ℕ)
verified host backup_path (ok _) s = (ok backup_path, s)
verified host none (err why) s = (err (verification_failed why), s)
verified host (some at) (err why) s = fail_with (restore host why (read_backup at s.backups) s)

-- `backup::create_backup(…)?` under `if plan.backup_required`
abbrev pub optional_backup : Bool → Platform → Text → System → Outcome (Option ℕ)
optional_backup false host current s = (ok none, s)
optional_backup true host current s =
    and_next (create_backup host current s) λ at s'. (ok (some at), s')

module _ {A : Type 0} ⦃ip : IpAddr A⦄ where
  -- The write, and the verification of what was written
  unfoldable pub write_new : Platform → ApplyPlan A → Option ℕ → Text → System → Outcome (Option ℕ)
  write_new host plan backup_path new_content s =
      and_next (atomic_write host.moves host.left new_content s)
        λ _ s'. verified host backup_path (verify new_content plan) s'

  unfoldable pub write_backed :
      Platform → ApplyPlan A → Text → Outcome (Option ℕ) → Option (Outcome (Option ℕ))
  unfolding write_new
  write_backed host plan current (err e, s) = some (err e, s)
  write_backed host plan current (ok backup_path, s) =
      and_then (build_hosts_content current plan)
        λ new_content. some (write_new host plan backup_path new_content s)

  -- `none` is a panic. The first argument of `write_checked` is `ensure_regular_file`.
  abbrev pub write_checked :
      Result WriteError Unit → Platform → ApplyPlan A → Text → System → Option (Outcome (Option ℕ))
  write_checked (err e) host plan current s = some (err e, s)
  write_checked (ok _) host plan current s =
      write_backed host plan current (optional_backup plan.backup_required host current s)

  unfoldable pub apply_with_content :
      Platform → ApplyPlan A → Text → System → Option (Outcome (Option ℕ))
  unfolding write_backed create_backup
  apply_with_content host plan current s =
      write_checked (ensure_regular_file s.hosts_file) host plan current s

  -- `apply` reads the file first, and drops the path of the backup.
  abbrev pub apply_read :
      Result WriteError Text → Platform → ApplyPlan A → System → Option (Outcome (Option ℕ))
  apply_read (err e) host plan s = some (err e, s)
  apply_read (ok current) host plan s = write_checked (ok tt) host plan current s

  unfoldable pub apply : Platform → ApplyPlan A → System → Option (Outcome (Option ℕ))
  unfolding write_backed create_backup
  apply host plan s = elim (ensure_regular_file s.hosts_file) [
    | err e ↦ some (err e, s)
    | ok _ ↦ apply_read (read_to_string s.hosts_file) host plan s
  ]

-- The content of the newest backup
abbrev pub latest : List Backup → Option Backup
latest [] = none
latest (b ∷ bs) = some b

abbrev pub compared : Text → Result WriteError Text → Result WriteError Unit
compared content (err e) = err e
compared content (ok rolled_back) = if eqb rolled_back content then ok tt else err mismatch

abbrev pub roll_to : Platform → Option Backup → System → Outcome Unit
roll_to host none s = (err no_backup, s)
roll_to host (some b) s =
    and_next (atomic_write host.moves host.left b.content s)
      λ _ s'. (compared b.content (read_to_string s'.hosts_file), s')

abbrev pub roll_checked : Result WriteError Unit → Platform → System → Outcome Unit
roll_checked (err e) host s = (err e, s)
roll_checked (ok _) host s =
    roll_to host (latest (sort_by (λ a b. leb b.modified a.modified) s.backups)) s

unfoldable pub rollback : Platform → System → Outcome Unit
rollback host s = roll_checked (ensure_regular_file s.hosts_file) host s
