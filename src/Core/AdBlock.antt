-- ===== src/Core/AdBlock.antt =====
-- src-tauri/crates/mhost-core/src/models.rs: the ad-block sources and their state. Times are
-- numbers; what serde derives is not modelled here.
use m_host.Common.{Text, ℕ, Bool, true, false, Option, List, []}
use m_host.Core.Models.{Uuid}

-- `ZeroAddress` answers 0.0.0.0, `NxDomain` denies the name.
pub data AdBlockResponse : Type 0 where
  zero_address nx_domain : AdBlockResponse

pub data BlocklistFormat : Type 0 where
  hosts_format domains_format : BlocklistFormat

pub record AdBlockSource : Type 0 where
  pub source_id : Uuid
  pub name : Text
  pub url : Text
  pub enabled : Bool
  pub response : AdBlockResponse
  pub format : BlocklistFormat
  pub last_fetched_at : Option ℕ
  pub last_error : Option Text
  pub rule_count : ℕ
  pub etag : Option Text
  pub rules_limit_override : Option ℕ
  pub last_refresh_duration_ms : Option ℕ
  pub last_refresh_failed_at : Option ℕ

pub record AdBlockState : Type 0 where
  pub enabled : Bool
  pub sources : List AdBlockSource
  pub whitelist : List Text
  pub auto_refresh_enabled : Bool
  pub refresh_interval_hours : ℕ

-- `AdBlockState::default()`
abbrev pub default_state : AdBlockState
default_state = record {
  enabled = false;
  sources = [];
  whitelist = [];
  auto_refresh_enabled = true;
  refresh_interval_hours = 24;
}
