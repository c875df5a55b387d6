-- ===== src/Apply/Writer/Restored.antt =====
-- An application of a plan either writes content that verifies, or leaves the hosts file or its
-- backup.
use m_host.Common.{
  Text, ℕ, ◌<◌, true, false, Option, some, [], length, and_then, and_then-eq-some, ◌≡◌, ◌≢◌, refl,
  sym, ap, ◌∙◌, Bool-cases, ◌⊎◌, inl, inr,
}
use m_host.Common.Result.{Result, ok, err}
use m_host.Core.Errors.{VerifyError, WriteError, io}
use m_host.Core.Ip.{IpAddr}
use m_host.Core.Models.{ApplyPlan}
use m_host.Apply.Content.{build_hosts_content}
use m_host.Apply.Content.Applied.{IsTidy, build-verify}
use m_host.Apply.Content.Verified.{Writable}
use m_host.Apply.Verification.{verify}
use m_host.Apply.Writer.{
  HostsFile, regular, System, Platform, Outcome, max_backups, create_backup, read_backup, verified,
  optional_backup, and_next, write_new, write_backed, apply_with_content,
}
use m_host.Apply.Writer.Backups.{create_backup-reads}

ok_inj : {T : Type 0} {a b : T} → ◌≡◌ {A = Result WriteError T} (ok a) (ok b) → a ≡ b
ok_inj h = cc

some_inj : {T : Type 0} {a b : T} → some a ≡ some b → a ≡ b
some_inj h = cc

optional-ok :
    (r : Outcome ℕ) {at : ℕ}
    → r.0 ≡ ok at
    → (and_next r (λ at s. (ok (some at), s))).0 ≡ ok (some at)
optional-ok (err e, s) h = absurd (cc)
optional-ok (ok a, s) h = cc

optional-same :
    (r : Outcome ℕ) {at : ℕ}
    → r.0 ≡ ok at
    → (and_next {U = Option ℕ} r (λ at s. (ok (some at), s))).1 ≡ r.1
optional-same (err e, s) h = absurd (cc)
optional-same (ok a, s) h = refl

verified-keeps :
    (host : Platform) (at : ℕ) (current : Text) (v : Result VerifyError Unit) (s s' : System)
    (e : WriteError)
    → read_backup at s.backups ≡ ok current
    → host.moves_back ≡ true
    → verified host (some at) v s ≡ (err e, s')
    → (read_backup at s'.backups ≡ ok current) × (s'.hosts_file ≡ regular current)
verified-keeps host at current (ok _) s s' e h back fails = absurd (cc)
verified-keeps host at current (err why) s s' e h back fails = (
  sym (ap (λ r. read_backup at r.1.backups) fails) ∙ rw (h, back) h,
  sym (ap (λ r. r.1.hosts_file) fails) ∙ rw (h, back) refl,
)

module _ {A : Type 0} ⦃ip : IpAddr A⦄ where
  apply-steps :
      (host : Platform) (plan : ApplyPlan A) (current : Text) (s : System)
      → s.hosts_file ≡ regular current
      → apply_with_content host plan current s
        ≡ write_backed host plan current (optional_backup plan.backup_required host current s)
  unfolding apply_with_content
  apply-steps host plan current s is_file = rw is_file refl

  backed_steps :
      (host : Platform) (plan : ApplyPlan A) (current : Text) (r : Outcome (Option ℕ))
      (at : Option ℕ)
      → r.0 ≡ ok at
      → write_backed host plan current r
        ≡ and_then (build_hosts_content current plan) (λ n. some (write_new host plan at n r.1))
  unfolding write_backed
  backed_steps host plan current (err e, s) at h = absurd (cc)
  backed_steps host plan current (ok a, s) at h =
      ap (λ a. and_then (build_hosts_content current plan) (λ n. some (write_new host plan a n s)))
        (ok_inj h)

  write_new-on :
      (host : Platform) (plan : ApplyPlan A) (at : Option ℕ) (written : Text) (s : System)
      → host.moves ≡ true
      → write_new host plan at written s
        ≡ verified host at (verify written plan) (record s { hosts_file = regular written })
  unfolding write_new
  write_new-on host plan at written s on = rw on refl

  write_new-off :
      (host : Platform) (plan : ApplyPlan A) (at : Option ℕ) (written : Text) (s : System)
      → host.moves ≡ false
      → write_new host plan at written s
        ≡ (err io, record s { hosts_file = host.left written s.hosts_file })
  unfolding write_new
  write_new-off host plan at written s off = rw off refl

  -- For a tidy hosts file and a plan with at least one writable rule, where the backup and the move
  -- succeed, an application reports success, and the hosts file holds new content that verifies.
  pub apply_with_content-writes :
      (host : Platform) (plan : ApplyPlan A) (current : Text) (s : System) (backup_path : Option ℕ)
      → IsTidy current
      → plan.rules ≢ []
      → Writable plan.rules
      → s.hosts_file ≡ regular current
      → (optional_backup plan.backup_required host current s).0 ≡ ok backup_path
      → host.moves ≡ true
      → (written : Text) × (build_hosts_content current plan ≡ some written)
        × (verify written plan ≡ ok tt)
        × (apply_with_content host plan current s
            ≡ some (
              ok backup_path,
              record (optional_backup plan.backup_required host current s).1 {
                hosts_file = regular written;
              },
            ))
  unfolding apply_with_content write_backed write_new
  apply_with_content-writes host plan current s backup_path tidy ne ok_rules is_file backed moves =
      let (written, built, verifies) = build-verify current plan tidy ne ok_rules in
      let mid = (optional_backup plan.backup_required host current s).1 in
      (
        written,
        built,
        verifies,
        apply-steps host plan current s is_file
            ∙ backed_steps host plan current (optional_backup plan.backup_required host current s)
                backup_path backed
            ∙ ap (λ o. and_then o (λ n. some (write_new host plan backup_path n mid))) built
            ∙ ap some (write_new-on host plan backup_path written mid moves ∙ rw verifies refl),
      )

  -- The hosts file as it was, or as the move of the new content that failed left it.
  abbrev pub KeptOrLeft : Platform → ApplyPlan A → Text → HostsFile → Type 0
  KeptOrLeft host plan current file =
      (file ≡ regular current)
      ⊎ ((host.moves ≡ false)
          × ((written : Text) × (build_hosts_content current plan ≡ some written)
              × (file ≡ host.left written (regular current))))

  write_new-keeps :
      (host : Platform) (plan : ApplyPlan A) (at : ℕ) (current written : Text) (s s' : System)
      (e : WriteError)
      → build_hosts_content current plan ≡ some written
      → read_backup at s.backups ≡ ok current
      → host.moves_back ≡ true
      → s.hosts_file ≡ regular current
      → write_new host plan (some at) written s ≡ (err e, s')
      → (read_backup at s'.backups ≡ ok current) × KeptOrLeft host plan current s'.hosts_file
  write_new-keeps host plan at current written s s' e built h back is_file fails =
      elim (Bool-cases host.moves) [
        | inl on ↦
            let (backup, same) =
              verified-keeps host at current (verify written plan)
                (record s { hosts_file = regular written }) s' e h back
                (sym (write_new-on host plan (some at) written s on) ∙ fails) in
            (backup, inl same)
        | inr off ↦
            let step = sym fails ∙ write_new-off host plan (some at) written s off in
            (
              ap (λ r. read_backup at r.1.backups) step ∙ h,
              inr (
                off,
                (written, built, ap (λ r. r.1.hosts_file) step ∙ ap (host.left written) is_file),
              ),
            )
      ]

  -- Where a backup is required and written among fewer than ten, and a restored file can be moved
  -- into place, an application that returns any error leaves the old content in the backup of this
  -- second, and the hosts file as it was or, where the move of the new content failed, as that move
  -- left it.
  pub apply_with_content-keeps :
      (host : Platform) (plan : ApplyPlan A) (current : Text) (s s' : System) (e : WriteError)
      → s.hosts_file ≡ regular current
      → plan.backup_required ≡ true
      → host.backs_up ≡ true
      → length s.backups < max_backups
      → host.moves_back ≡ true
      → apply_with_content host plan current s ≡ some (err e, s')
      → (read_backup host.now s'.backups ≡ ok current) × KeptOrLeft host plan current s'.hosts_file
  unfolding apply_with_content write_backed
  apply_with_content-keeps host plan current s s' e is_file required on few back fails =
      let mid = (create_backup host current s).1 in
      let (made, reads, same_file) = create_backup-reads host current s on few in
      let steps =
        sym (
          apply-steps host plan current s is_file
          ∙ ap (λ b. write_backed host plan current (optional_backup b host current s)) required)
        ∙ fails in
      let backed =
        backed_steps host plan current (optional_backup true host current s) (some host.now)
          (optional-ok (create_backup host current s) made) in
      let (written, built, wrote) =
        and_then-eq-some (build_hosts_content current plan)
          (λ n.
            some (write_new host plan (some host.now) n (optional_backup true host current s).1))
          (sym backed ∙ steps) in
      write_new-keeps host plan host.now current written (optional_backup true host current s).1 s'
        e built
        (ap (λ x. read_backup host.now x.backups)
            (optional-same (create_backup host current s) made)
          ∙ reads)
        back
        (ap (λ x. x.hosts_file) (optional-same (create_backup host current s) made)
          ∙ same_file
          ∙ is_file)
        (some_inj wrote)
