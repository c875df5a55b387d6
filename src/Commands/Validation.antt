-- ===== src/Commands/Validation.antt =====
-- `validate_profile` of src-tauri/src/commands/profile.rs. An error stands for its message.
use m_host.Common.{
  Text, ltb, false, ◌||◌, ◌==◌, Option, none, some, List, [], ◌∷◌, if◌then◌else◌, any, is_empty,
  is_whitespace, contains_char, len, ◌≡◌, ◌≢◌, refl, arith, All, Bool-cases, inl, inr,
}
use m_host.Common.Result.{Result, ok, err, ◌>>◌}
use m_host.Core.Models.{HostRule, Profile}
use m_host.Apply.Content.Lines.{IsWritable}

pub data InvalidProfile : Type 0 where
  empty_name long_name invalid_name long_description invalid_description : InvalidProfile
  missing_ip no_domains empty_domain : InvalidProfile
  invalid_domain : Text → InvalidProfile

unfoldable pub validate_name : Text → Result InvalidProfile Unit
validate_name name =
    if is_empty name
    then err empty_name
    else if ltb 255 (len name)
    then err long_name
    else if contains_char b'\n' name || contains_char 0 name
    then err invalid_name
    else ok tt

unfoldable pub validate_description : Option Text → Result InvalidProfile Unit
validate_description none = ok tt
validate_description (some desc) =
    if ltb 4096 (len desc)
    then err long_description
    else if contains_char 0 desc
    then err invalid_description
    else ok tt

unfoldable pub validate_domains : List Text → Result InvalidProfile Unit
validate_domains [] = ok tt
validate_domains (d ∷ ds) =
    let rest = validate_domains ds in
    if is_empty d
    then err empty_domain
    else if any (λ c. is_whitespace c || c == b'\n' || c == 0) d
    then err (invalid_domain d)
    else rest

any_weaker :
    (d : Text)
    → any (λ c. is_whitespace c || c == b'\n' || c == 0) d ≡ false
    → any is_whitespace d ≡ false
any_weaker [] h = refl
any_weaker (c ∷ d) h =
    let rest : any is_whitespace d ≡ false = any_weaker d (ground (arith, h)) in
    ground (arith, h, rest)

is_empty-false : {T : Type 0} (xs : List T) → is_empty xs ≡ false → xs ≢ []
is_empty-false [] h e = absurd (cc)
is_empty-false (x ∷ xs) h e = cc

validate_domains-IsWritable : (ds : List Text) → validate_domains ds ≡ ok tt → All IsWritable ds
unfolding validate_domains
validate_domains-IsWritable [] h = tt
validate_domains-IsWritable (d ∷ ds) h = elim (Bool-cases (is_empty d)) [
  | inl no_char ↦ absurd (ground (arith, no_char, h))
  | inr some_char ↦ elim (Bool-cases (any (λ c. is_whitespace c || c == b'\n' || c == 0) d)) [
    | inl bad ↦ absurd (ground (arith, some_char, bad, h))
    | inr good ↦ (
      record { not_empty = is_empty-false d some_char; no_space = any_weaker d good },
      validate_domains-IsWritable ds (ground (arith, some_char, good, h)),
    )
  ]
]

then-ok : {m k : Result InvalidProfile Unit} → (m >> k) ≡ ok tt → (m ≡ ok tt) × (k ≡ ok tt)
then-ok {m = err e} h = absurd (cc)
then-ok {m = ok u} h = (refl, h)

module _ {A : Type 0} where
  unfoldable pub validate_rule : Option A → List Text → Result InvalidProfile Unit
  unfolding validate_domains
  validate_rule none domains = err missing_ip
  validate_rule (some ip) domains =
      if is_empty domains then err no_domains else validate_domains domains

  unfoldable pub validate_rules : List (HostRule A) → Result InvalidProfile Unit
  unfolding validate_rule
  validate_rules [] = ok tt
  validate_rules (r ∷ rs) = validate_rule r.ip r.domains >> validate_rules rs

  unfoldable pub validate_profile : Profile A → Result InvalidProfile Unit
  unfolding validate_name validate_description validate_rules
  validate_profile p =
      validate_name p.name >> (validate_description p.description >> validate_rules p.rules)

  -- What the plan needs of a rule
  pub record IsSound (r : HostRule A) : Type 0 where
    pub has_ip : r.ip ≢ none
    pub has_domains : r.domains ≢ []
    pub writable : All IsWritable r.domains

  validate_rule_sound :
      (o : Option A) (ds : List Text)
      → validate_rule o ds ≡ ok tt
      → (o ≢ none) × (ds ≢ []) × All IsWritable ds
  unfolding validate_rule
  validate_rule_sound none ds h = absurd (cc)
  validate_rule_sound (some ip) ds h = elim (Bool-cases (is_empty ds)) [
    | inl none_left ↦ absurd (ground (arith, none_left, h))
    | inr some_left ↦ (
      (λ e. cc),
      is_empty-false ds some_left,
      validate_domains-IsWritable ds (ground (arith, some_left, h)),
    )
  ]

  validate_rules-IsSound : (rs : List (HostRule A)) → validate_rules rs ≡ ok tt → All IsSound rs
  unfolding validate_rules
  validate_rules-IsSound [] h = tt
  validate_rules-IsSound (r ∷ rs) h =
      let (first, others) = then-ok {m = validate_rule r.ip r.domains} {k = validate_rules rs} h in
      let (has_ip, has_domains, writable) = validate_rule_sound r.ip r.domains first in
      (
        record { has_ip = has_ip; has_domains = has_domains; writable = writable },
        validate_rules-IsSound rs others,
      )

  -- A profile that passes the validation has an address and at least one domain in every rule, and
  -- each domain is not empty and holds no white space.
  pub validate_profile-IsSound : (p : Profile A) → validate_profile p ≡ ok tt → All IsSound p.rules
  unfolding validate_profile
  validate_profile-IsSound p h =
      let named =
        then-ok {m = validate_name p.name}
          {k = validate_description p.description >> validate_rules p.rules} h in
      let described =
        then-ok {m = validate_description p.description} {k = validate_rules p.rules} named.1 in
      validate_rules-IsSound p.rules described.1
