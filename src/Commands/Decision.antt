-- ===== src/Commands/Decision.antt =====
-- `decide_apply_mode` and `reject_empty_plan` of src-tauri/src/commands/apply.rs
use m_host.Common.{
  ℕ, ◌+◌, ltb, not, ◌≤◌, true, false, if◌then◌else◌, is_empty, ◌≡◌, refl, List, ◌∷◌, ◌↔◌, arith, [],
}
use m_host.Core.Models.{ApplyOutcome, ApplyMode, quick_apply, require_preview}

abbrev pub destructive_threshold : ℕ
destructive_threshold = 100

is_empty-eq-nil : {T : Type 0} (xs : List T) → is_empty xs ≡ true → xs ≡ []
is_empty-eq-nil [] h = refl
is_empty-eq-nil (x ∷ xs) h = absurd (cc)

module _ {A : Type 0} where
  unfoldable pub decide_apply_mode : ApplyOutcome A → ApplyMode
  decide_apply_mode o =
      if o.has_conflicts
      then require_preview
      else if not (is_empty o.disabled_profile_ids)
      then require_preview
      else if ltb destructive_threshold (o.added_count + o.removed_count)
      then require_preview
      else quick_apply

  -- What makes an outcome safe to apply with no preview.
  pub record IsSafe (o : ApplyOutcome A) : Type 0 where
    pub no_conflicts : o.has_conflicts ≡ false
    pub none_disabled : o.disabled_profile_ids ≡ []
    pub few_changes : o.added_count + o.removed_count ≤ destructive_threshold

  -- An outcome is applied with no preview exactly when it has no conflict, disables no other profile,
  -- and adds and removes a hundred lines at most.
  pub decide_apply_mode-IsSafe :
      (o : ApplyOutcome A) → (decide_apply_mode o ≡ quick_apply) ↔ IsSafe o
  unfolding decide_apply_mode
  decide_apply_mode-IsSafe o = (
    (λ h. record {
      no_conflicts = ground (arith, h);
      none_disabled = is_empty-eq-nil o.disabled_profile_ids (ground (arith, h));
      few_changes = ground (arith, h);
    }),
    λ safe. rw (safe.no_conflicts, safe.none_disabled) (ground (arith, safe.few_changes)),
  )
