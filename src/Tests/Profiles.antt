-- ===== src/Tests/Profiles.antt =====
-- A small JSON codec, which prints the profiles with a name and at most one rule for a domain of one
-- character, and skips the line number of the rule; saves and deletions of such profiles.
use m_host.Common.{
  Text, ℕ, zero, suc, ◌==◌, Bool, true, false, Option, none, some, List, [], ◌∷◌, ◌≡◌, refl, sym,
  ap, ◌∙◌, arith, if◌then◌else◌,
}
use m_host.Common.Result.{ok}
use m_host.Core.Models.{
  Uuid, Profile, ProfileMode, HostRule, RuleSource, manual, remote, ad_block, hosts, dns,
}
use m_host.Storage.Files.{File, Files, get_file, put_file}
use m_host.Storage.Profiles.{
  Json, saved_form, Disk, load_profile, save_profile, write_profile, write_and_clean, clean_stale,
}
use m_host.Storage.Saved.{IsSingle, load-write_profile, load-save_profile}
use m_host.Storage.Kept.{load-save_other}
use m_host.Tests.Addresses.{Address, zero_address, local_address, public_address}

abbrev pub bit : Bool → ℕ
bit true = 1
bit false = 0

abbrev pub mode_code : ProfileMode → ℕ
mode_code hosts = 0
mode_code dns = 1

abbrev pub mode_at : ℕ → ProfileMode
mode_at n = if n == 0 then hosts else dns

abbrev pub plain : Uuid → Bool → ProfileMode → ℕ → ℕ → Profile Address
plain id enabled mode created_at updated_at = record {
  id = id;
  name = [];
  description = none;
  enabled = enabled;
  protected = false;
  tags = [];
  rules = [];
  mode = mode;
  created_at = created_at;
  updated_at = updated_at;
}

-- The rule that a parse gives has no line number.
abbrev pub read_rule : Uuid → ℕ → HostRule Address
read_rule id c = record {
  id = id;
  ip = some local_address;
  domains = (c ∷ []) ∷ [];
  enabled = true;
  comment = none;
  source = manual;
  line_number = none;
}

abbrev print_one :
    Profile Address
    → Text
    → Uuid
    → Option Address
    → List Text
    → Bool
    → Option Text
    → RuleSource
    → Option Text
print_one p name id (some local_address) ((c ∷ []) ∷ []) true none manual =
    some (p.id ∷ bit p.enabled ∷ mode_code p.mode ∷ p.created_at ∷ p.updated_at ∷ 1 ∷ id ∷ c ∷ name)
print_one p _ _ _ _ _ _ _ = none

abbrev pub print :
    Profile Address → Text → Option Text → Bool → List Text → List (HostRule Address) → Option Text
print p name none false [] [] =
    some (p.id ∷ bit p.enabled ∷ mode_code p.mode ∷ p.created_at ∷ p.updated_at ∷ 0 ∷ name)
print p name none false [] (r ∷ []) =
    print_one p name r.id r.ip r.domains r.enabled r.comment r.source
print p _ _ _ _ _ = none

abbrev pub parse : Text → Option (Profile Address)
parse (id ∷ enabled ∷ mode ∷ created_at ∷ updated_at ∷ zero ∷ name) =
    some (record (plain id (enabled == 1) (mode_at mode) created_at updated_at) { name = name })
parse (id ∷ enabled ∷ mode ∷ created_at ∷ updated_at ∷ suc n ∷ rule_id ∷ c ∷ name) =
    some (record (plain id (enabled == 1) (mode_at mode) created_at updated_at) {
      name = name;
      rules = read_rule rule_id c ∷ [];
    })
parse _ = none

bit-same : (b : Bool) → (bit b == 1) ≡ b
bit-same true = refl
bit-same false = refl

mode-same : (m : ProfileMode) → mode_at (mode_code m) ≡ m
mode-same hosts = refl
mode-same dns = refl

with_rest : Profile Address → Text → List (HostRule Address) → Profile Address
with_rest p name rules = record p {
  name = name;
  description = none;
  protected = false;
  tags = [];
  rules = rules;
}

parse-print_one :
    (p : Profile Address) (name : Text) (id : Uuid) (ip : Option Address) (domains : List Text)
    (enabled : Bool) (comment : Option Text) (source : RuleSource) (line : Option ℕ) (t : Text)
    → print_one p name id ip domains enabled comment source ≡ some t
    → parse t
      ≡ some (
          saved_form (
            with_rest p name (
              record {
                id = id;
                ip = ip;
                domains = domains;
                enabled = enabled;
                comment = comment;
                source = source;
                line_number = line;
              }
              ∷ [])))
unfolding with_rest
parse-print_one p name id (some local_address) ((c ∷ []) ∷ []) true none manual line t h =
    let printed : (p.id
          ∷ bit p.enabled
          ∷ mode_code p.mode
          ∷ p.created_at
          ∷ p.updated_at
          ∷ 1
          ∷ id
          ∷ c
          ∷ name)
        ≡ t =
      cc in
    sym (ap parse printed) ∙ rw (bit-same p.enabled, mode-same p.mode) refl
parse-print_one p name id none domains on comment source line t h = absurd (cc)
parse-print_one p name id (some zero_address) domains on comment source line t h = absurd (cc)
parse-print_one p name id (some public_address) domains on comment source line t h = absurd (cc)
parse-print_one p name id (some local_address) [] on comment source line t h = absurd (cc)
parse-print_one p name id (some local_address) ([] ∷ ds) on comment source line t h = absurd (cc)
parse-print_one p name id (some local_address) ((c ∷ d ∷ cs) ∷ ds) on comment source line t h =
    absurd (cc)
parse-print_one p name id (some local_address) ((c ∷ []) ∷ d ∷ ds) on comment source line t h =
    absurd (cc)
parse-print_one p name id (some local_address) ((c ∷ []) ∷ []) false comment source line t h =
    absurd (cc)
parse-print_one p name id (some local_address) ((c ∷ []) ∷ []) true (some x) source line t h =
    absurd (cc)
parse-print_one p name id (some local_address) ((c ∷ []) ∷ []) true none (remote s) line t h =
    absurd (cc)
parse-print_one p name id (some local_address) ((c ∷ []) ∷ []) true none (ad_block s) line t h =
    absurd (cc)

pub parse-print :
    (p : Profile Address) (name : Text) (desc : Option Text) (prot : Bool) (tags : List Text)
    (rules : List (HostRule Address)) (t : Text)
    → print p name desc prot tags rules ≡ some t
    → parse t
      ≡ some (
          saved_form (record p {
            name = name;
            description = desc;
            protected = prot;
            tags = tags;
            rules = rules;
          }))
parse-print p name (some d) prot tags rules t h = absurd (cc)
parse-print p name none true tags rules t h = absurd (cc)
parse-print p name none false (x ∷ tags) rules t h = absurd (cc)
parse-print p name none false [] (r ∷ q ∷ rules) t h = absurd (cc)
parse-print p name none false [] (r ∷ []) t h =
    unfold with_rest in
    parse-print_one p name r.id r.ip r.domains r.enabled r.comment r.source r.line_number t h
parse-print p name none false [] [] t h =
    let printed : (p.id ∷ bit p.enabled ∷ mode_code p.mode ∷ p.created_at ∷ p.updated_at ∷ 0 ∷ name)
        ≡ t =
      cc in
    sym (ap parse printed) ∙ rw (bit-same p.enabled, mode-same p.mode) refl

instance abbrev pub test_json : Json Address
test_json = record {
  to_string_pretty = λ p. print p p.name p.description p.protected p.tags p.rules;
  from_str = parse;
  from_str-to_string_pretty =
      λ p t h. parse-print p p.name p.description p.protected p.tags p.rules t h;
}

abbrev pub sound : Disk
sound = record { creates = true; writes = true; removes = true }

-- A hosts profile that was saved at time 5 is now a DNS profile.
abbrev pub before : Files
before = record {
  hosts_dir =
      (7, record { content = some (7 ∷ 1 ∷ 0 ∷ 1 ∷ 1 ∷ 1 ∷ 20 ∷ b'x' ∷ []); modified = some 5 })
      ∷ (8, record { content = some (8 ∷ 1 ∷ 0 ∷ 1 ∷ 1 ∷ 0 ∷ []); modified = some 5 })
      ∷ [];
  dns_dir = [];
}

-- The profile is in memory as it was imported, with the line of its rule.
abbrev moved : Profile Address
moved = record (plain 7 true dns 1 9) {
  rules = record (read_rule 20 b'x') { line_number = some 4 } ∷ [];
}

abbrev moved_text : Text
moved_text = 7 ∷ 1 ∷ 1 ∷ 1 ∷ 9 ∷ 1 ∷ 20 ∷ b'x' ∷ []

load-write_profile_example :
    load_profile moved.id (write_profile 9 moved_text moved before) ≡ ok (saved_form moved)
unfolding get_file
load-write_profile_example =
    load-write_profile 9 moved_text moved before refl (5, refl, omega arith)

saved : (save_profile sound 9 moved before).0 ≡ ok tt
unfolding save_profile write_and_clean clean_stale write_profile get_file put_file
saved = refl

load-save_profile_example :
    ((f : File) × IsSingle moved.mode moved.id f (save_profile sound 9 moved before).1)
    × (load_profile moved.id (save_profile sound 9 moved before).1 ≡ ok (saved_form moved))
load-save_profile_example = load-save_profile sound 9 moved before saved

load-save_other_example :
    load_profile {A = Address} 8 (save_profile sound 9 moved before).1
    ≡ load_profile {A = Address} 8 before
load-save_other_example = load-save_other sound 9 8 moved before (λ e. ground arith)
