-- ===== src/Commands/Tray.antt =====
-- src-tauri/src/tray_logic.rs
use m_host.Common.{
  Text, Bool, true, false, ◌&&◌, Option, none, some, List, [], ◌∷◌, codes, eqb, strip_prefix,
  if◌then◌else◌,
}

pub data TrayMenuAction : Type 0 where
  switch_profile : Text → TrayMenuAction
  refresh_rules open_window quit ad_block unknown : TrayMenuAction

pub record ProfileMenuItem : Type 0 where
  pub profile_id : Text
  pub name : Text
  pub checked : Bool

pub data MenuUpdateKind : Type 0 where
  check_only rebuild : MenuUpdateKind

abbrev pub profile_id_prefix : Text
profile_id_prefix = codes "profile."

abbrev pub fixed_action : Text → TrayMenuAction
fixed_action menu_id =
    if eqb menu_id (codes "refresh_rules")
    then refresh_rules
    else if eqb menu_id (codes "open_window")
    then open_window
    else if eqb menu_id (codes "quit")
    then quit
    else if eqb menu_id (codes "adblock")
    then ad_block
    else unknown

abbrev pub action_of : Text → Option Text → TrayMenuAction
action_of menu_id (some id) = switch_profile id
action_of menu_id none = fixed_action menu_id

unfoldable pub resolve_menu_action : Text → TrayMenuAction
resolve_menu_action menu_id = action_of menu_id (strip_prefix profile_id_prefix menu_id)

unfoldable pub build_profile_menu_items : List (Text × Text × Bool) → List ProfileMenuItem
build_profile_menu_items [] = []
build_profile_menu_items ((id, name, checked) ∷ rest) =
    record { profile_id = id; name = name; checked = checked } ∷ build_profile_menu_items rest

unfoldable pub same_ids : List Text → List Text → Bool
same_ids [] [] = true
same_ids (a ∷ ids) (b ∷ others) = eqb a b && same_ids ids others
same_ids _ _ = false

unfoldable pub determine_menu_update_kind : List Text → List Text → MenuUpdateKind
unfolding same_ids
determine_menu_update_kind old new = if same_ids old new then check_only else rebuild
