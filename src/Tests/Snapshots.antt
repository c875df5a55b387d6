-- ===== src/Tests/Snapshots.antt =====
-- Saving and listing snapshots, with documents that hold one entry with no name.
use m_host.Common.{
  All, Text, ℕ, true, false, Option, none, some, List, [], ◌∷◌, len, codes, eqb, ◌≡◌, refl,
  some-inj, ap, sym,
}
use m_host.Common.Assoc.{get, put, remove}
use m_host.Common.Result.{ok}
use m_host.Common.Sort.{sort_by, insert_by}
use m_host.Commands.Snapshot.{
  SnapshotMeta, Snapshot, Snapshots, Access, SnapshotJson, reconcile_snapshot_index,
  reconcile_loaded, load_index, rebuild_snapshot_index, write_snapshot_index, metas_of,
  resolve_markers,
}
use m_host.Commands.Snapshot.Saving.{
  list_snapshots, save_snapshot, save_indexed, ensure_snapshot_index, prune,
}
use m_host.Commands.Snapshot.Indexed.{missing}
use m_host.Commands.Snapshot.Listed.{list_snapshots-present, IsBounded, save_snapshot-IsBounded}
use m_host.Commands.Apply.{save_all}
use m_host.Commands.Snapshot.Loaded.{replace_profiles-load}
use m_host.Commands.Snapshot.Loading.{replace_profiles, delete_all}
use m_host.Core.Models.{Profile, hosts}
use m_host.Storage.Files.{get_file, put_file, remove_file}
use m_host.Storage.Profiles.{
  saved_form, load_profile, save_profile, write_and_clean, clean_stale, write_profile,
  delete_profile, delete_from, list_profiles_by_mode, read_profiles_from_dir, read_file,
  parse_profile,
}
use m_host.Tests.Addresses.{Address}
use m_host.Tests.Profiles.{plain as plain_profile, read_rule, test_json, sound, before}

abbrev print_one : ℕ → SnapshotMeta → Text → Option Text → Option Text
print_one version m [] none = some (version ∷ m.profile_count ∷ m.created_at ∷ m.id)
print_one version m _ _ = none

abbrev print_entries : ℕ → List SnapshotMeta → Option Text
print_entries version [] = some (version ∷ [])
print_entries version (m ∷ []) = print_one version m m.name m.description
print_entries version (m ∷ n ∷ ms) = none

abbrev plain : Text → ℕ → ℕ → SnapshotMeta
plain id count created_at = record {
  id = id;
  name = [];
  description = none;
  profile_count = count;
  created_at = created_at;
}

abbrev scan_entries : Text → Option (ℕ × List SnapshotMeta)
scan_entries (version ∷ []) = some (version, [])
scan_entries (version ∷ count ∷ created_at ∷ id) = some (version, plain id count created_at ∷ [])
scan_entries _ = none

abbrev scan_one : Text → Option (ℕ × SnapshotMeta)
scan_one (version ∷ count ∷ created_at ∷ id) = some (version, plain id count created_at)
scan_one _ = none

abbrev scan_meta : Text → Option SnapshotMeta
scan_meta (created_at ∷ id) = some (plain id 0 created_at)
scan_meta _ = none

scan-print_one :
    (version : ℕ) (m : SnapshotMeta) (name : Text) (description : Option Text) (t : Text)
    → print_one version m name description ≡ some t
    → scan_entries t ≡ some (version, record m { name = name; description = description } ∷ [])
scan-print_one version m [] none t h = ap scan_entries (sym (some-inj h))
scan-print_one version m [] (some d) t h = cc
scan-print_one version m (c ∷ name) none t h = cc
scan-print_one version m (c ∷ name) (some d) t h = cc

scan-print :
    (version : ℕ) (metas : List SnapshotMeta) (t : Text)
    → print_entries version metas ≡ some t
    → scan_entries t ≡ some (version, metas)
scan-print version [] t h = ap scan_entries (sym (some-inj h))
scan-print version (m ∷ []) t h = scan-print_one version m m.name m.description t h
scan-print version (m ∷ n ∷ ms) t h = cc

instance abbrev test_documents : SnapshotJson Address
test_documents = record {
  print_index = print_entries;
  read_index = scan_entries;
  print_transaction = λ version m. print_one version m m.name m.description;
  read_transaction = scan_one;
  print_snapshot = λ s. some (s.created_at ∷ s.id);
  read_snapshot = λ t. none;
  read_file_meta = scan_meta;
  is_uuid = λ t. true;
  read_index-print_index = scan-print;
}

abbrev open_access : Access
open_access = record { writes = true; removes = true }

abbrev legacy : Snapshots
legacy = record {
  exists = true;
  index = none;
  full = (codes "a", some (5 ∷ codes "a")) ∷ [];
  pending = [];
}

listing : (list_snapshots Address open_access legacy).0 ≡ ok (plain (codes "a") 0 5 ∷ [])
unfolding ensure_snapshot_index reconcile_snapshot_index reconcile_loaded load_index
    rebuild_snapshot_index write_snapshot_index metas_of resolve_markers sort_by insert_by eqb
listing = refl

list_snapshots-present_example :
    (missing legacy.full (plain (codes "a") 0 5 ∷ []) ≡ false)
    × ((list_snapshots Address open_access legacy).1.full ≡ legacy.full)
list_snapshots-present_example =
    list_snapshots-present Address open_access legacy (plain (codes "a") 0 5 ∷ []) refl listing

abbrev nothing : Snapshots
nothing = record { exists = false; index = none; full = []; pending = [] }

abbrev snapshot : Snapshot Address
snapshot = record { id = codes "a"; name = []; description = none; profiles = []; created_at = 5 }

saving : (save_snapshot Address open_access snapshot nothing).0 ≡ ok (plain (codes "a") 0 5)
unfolding save_snapshot save_indexed prune ensure_snapshot_index reconcile_snapshot_index
    reconcile_loaded load_index rebuild_snapshot_index write_snapshot_index metas_of resolve_markers
    sort_by insert_by eqb len put remove get
saving = refl

save_snapshot-IsBounded_example :
    IsBounded Address (save_snapshot Address open_access snapshot nothing).1
save_snapshot-IsBounded_example =
    save_snapshot-IsBounded Address open_access snapshot nothing (plain (codes "a") 0 5) saving

abbrev restored_profile : Profile Address
restored_profile = record (plain_profile 3 false hosts 1 2) {
  name = codes "dev";
  rules = record (read_rule 20 b'x') { line_number = some 2 } ∷ [];
}

replacing : (replace_profiles Address sound 9 (restored_profile ∷ []) before).0 ≡ ok tt
unfolding replace_profiles delete_all delete_profile delete_from save_all list_profiles_by_mode
    read_profiles_from_dir read_file parse_profile save_profile write_and_clean clean_stale
    write_profile get_file put_file remove_file
replacing = refl

replace_profiles-load_example :
    All
      (λ p.
        load_profile p.id (replace_profiles Address sound 9 (restored_profile ∷ []) before).1
        ≡ ok (saved_form p))
      (restored_profile ∷ [])
replace_profiles-load_example =
    replace_profiles-load Address sound 9 (restored_profile ∷ []) before (tt, tt) replacing
