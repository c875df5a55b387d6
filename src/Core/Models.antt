-- ===== src/Core/Models.antt =====
-- src-tauri/crates/mhost-core/src/models.rs: profiles, rules, plans and outcomes. Identifiers are
-- the numbers that stand for UUIDs; time stamps are numbers. `A` is the type of IP addresses.
use m_host.Common.{Text, ℕ, Bool, true, false, not, Option, none, some, List, [], length, is_empty}

abbrev pub Uuid : Type 0
Uuid = ℕ

pub data ProfileMode : Type 0 where
  hosts dns : ProfileMode

-- `==` on `ProfileMode`
abbrev pub same_mode : ProfileMode → ProfileMode → Bool
same_mode hosts hosts = true
same_mode dns dns = true
same_mode _ _ = false

pub record ExternalSource : Type 0 where
  pub source_id : Uuid
  pub source_name : Text

pub data RuleSource : Type 0 where
  manual : RuleSource
  remote : ExternalSource → RuleSource
  ad_block : ExternalSource → RuleSource

pub record HostRule (A : Type 0) : Type 0 where
  pub id : Uuid
  pub ip : Option A
  pub domains : List Text
  pub enabled : Bool
  pub comment : Option Text
  pub source : RuleSource
  pub line_number : Option ℕ

pub data DuplicateKind : Type 0 where
  same_ip different_ip : DuplicateKind

pub record DuplicateRule : Type 0 where
  pub domain : Text
  pub lines : List ℕ
  pub kind : DuplicateKind

pub record Profile (A : Type 0) : Type 0 where
  pub id : Uuid
  pub name : Text
  pub description : Option Text
  pub enabled : Bool
  pub protected : Bool
  pub tags : List Text
  pub rules : List (HostRule A)
  pub mode : ProfileMode
  pub created_at : ℕ
  pub updated_at : ℕ

pub record ResolvedRule (A : Type 0) : Type 0 where
  pub ip : A
  pub domain : Text
  pub source_profile_id : Uuid
  pub source_profile_name : Text

pub record RuleConflict (A : Type 0) : Type 0 where
  pub domain : Text
  pub rules : List (ResolvedRule A)

pub record HostsDiff : Type 0 where
  pub added : List Text
  pub removed : List Text
  pub unchanged : List Text

pub record ApplyPlan (A : Type 0) : Type 0 where
  pub rules : List (ResolvedRule A)
  pub conflicts : List (RuleConflict A)
  pub diff : HostsDiff
  pub backup_required : Bool

pub record ApplyOutcome (A : Type 0) : Type 0 where
  pub plan : ApplyPlan A
  pub added_count : ℕ
  pub removed_count : ℕ
  pub unchanged_count : ℕ
  pub disabled_profile_ids : List Uuid
  pub has_conflicts : Bool
  pub snapshot_id : Option Text
  pub backup_path : Option Text

pub data ApplyMode : Type 0 where
  quick_apply require_preview : ApplyMode

module _ {A : Type 0} where
  -- `HostRule::new`; the id that `Uuid::new_v4` draws is an argument.
  unfoldable pub new_rule : Uuid → A → List Text → HostRule A
  new_rule id ip domains = record {
    id = id;
    ip = some ip;
    domains = domains;
    enabled = true;
    comment = none;
    source = manual;
    line_number = none;
  }

  unfoldable pub comment_only : Uuid → Text → HostRule A
  comment_only id text = record {
    id = id;
    ip = none;
    domains = [];
    enabled = false;
    comment = some text;
    source = manual;
    line_number = none;
  }

  unfoldable pub is_comment_only : HostRule A → Bool
  is_comment_only r = elim r.ip [ none ↦ true | some _ ↦ false ]

  -- `Profile::new`, at a drawn id and the time `now`
  unfoldable pub new_profile : Uuid → ℕ → Text → Profile A
  new_profile id now name = record {
    id = id;
    name = name;
    description = none;
    enabled = false;
    protected = false;
    tags = [];
    rules = [];
    mode = hosts;
    created_at = now;
    updated_at = now;
  }

  unfoldable pub empty_plan : ApplyPlan A
  empty_plan = record {
    rules = [];
    conflicts = [];
    diff = record { added = []; removed = []; unchanged = [] };
    backup_required = false;
  }

  unfoldable pub empty_outcome : ApplyOutcome A
  unfolding empty_plan
  empty_outcome = record {
    plan = empty_plan;
    added_count = 0;
    removed_count = 0;
    unchanged_count = 0;
    disabled_profile_ids = [];
    has_conflicts = false;
    snapshot_id = none;
    backup_path = none;
  }

  unfoldable pub from_parts : ApplyPlan A → List Uuid → Option Text → Option Text → ApplyOutcome A
  from_parts plan disabled_profile_ids snapshot_id backup_path = record {
    plan = plan;
    added_count = length plan.diff.added;
    removed_count = length plan.diff.removed;
    unchanged_count = length plan.diff.unchanged;
    disabled_profile_ids = disabled_profile_ids;
    has_conflicts = not (is_empty plan.conflicts);
    snapshot_id = snapshot_id;
    backup_path = backup_path;
  }
