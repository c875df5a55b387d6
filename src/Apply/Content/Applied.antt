-- ===== src/Apply/Content/Applied.antt =====
-- The content that an apply writes: no panic, verified, and stable under a second apply.
use m_host.Common.{
  Text, ℕ, some, List, [], ◌∷◌, ◌++◌, is_whitespace, split_inclusive, concat, and_then, ◌≡◌, ◌≢◌,
  ◌⊎◌, inl, inr, refl, ap, ap₂, sym, ◌∙◌, codes, append-nil,
}
use m_host.Common.Result.{ok}
use m_host.Common.Cutting.{concat-split_inclusive}
use m_host.Common.Trimming.{trim-append_space}
use m_host.Common.Pieces.{closed, closed_pieces, split_inclusive-IsPieces}
use m_host.Core.Ip.{IpAddr}
use m_host.Core.Models.{ResolvedRule, ApplyPlan}
use m_host.Hosts.ManagedBlock.{other, mark_of, extract_managed_block}
use m_host.Hosts.ManagedBlock.Agreement.{kind}
use m_host.Hosts.ManagedBlock.Shape.{Clean, extract_managed_block-Block}
use m_host.Apply.Plan.{format_as_hosts}
use m_host.Apply.Verification.{verify}
use m_host.Apply.Content.{build_hosts_content}
use m_host.Apply.Content.Built.{Around, surrounded, Around_of_Block, build-replaces, build-appends}
use m_host.Apply.Content.Verified.{Writable, verify-surrounded, Block_of_Around}

-- The file has one managed block, or no marker at all.
abbrev pub IsTidy : Text → Type 0
IsTidy current =
    ((s : ℕ) × (e : ℕ) × (extract_managed_block current ≡ some (s, e)))
    ⊎ Clean (split_inclusive current)

newline_keeps_kind : (p : Text) → kind p ≡ other → kind (p ++ codes "\n") ≡ other
newline_keeps_kind p h =
    ap mark_of (trim-append_space p (codes "\n") (unfold is_whitespace in refl)) ∙ h

unmarked :
    (current : Text)
    → Clean (split_inclusive current)
    → (a : Around current) × ((block : Text) → surrounded a block ≡ closed current ++ block)
unmarked current h =
    let (qs, complete, clean, whole) =
      closed_pieces {P = λ p. kind p ≡ other} newline_keeps_kind (split_inclusive current)
        (split_inclusive-IsPieces current) h in
    (
      record {
        front = qs;
        back = [];
        front_complete = complete;
        front_clean = clean;
        back_pieces = unfold split_inclusive in refl;
        back_clean = tt;
      },
      λ block. rw (append-nil block, whole, concat-split_inclusive current) refl,
    )

module _ {A : Type 0} ⦃ip : IpAddr A⦄ where
  -- In both cases the file is the user's lines around the block.
  build-surrounds :
      (current : Text) (plan : ApplyPlan A)
      → IsTidy current
      → (a : Around current) × (build_hosts_content current plan
          ≡ some (surrounded a (format_as_hosts plan.rules)))
  build-surrounds current plan (inl (s, e, h)) =
      let b = (extract_managed_block-Block current s e).0 h in
      let (a, front, back) = Around_of_Block b in
      (a, rw (front, back) (build-replaces current plan b).1)
  build-surrounds current plan (inr h) =
      let (a, whole) = unmarked current h in
      (a, build-appends current plan h ∙ ap some (sym (whole (format_as_hosts plan.rules))))

  -- A plan with rules, whose domains hold no white space and are not empty, on a file with one
  -- managed block or with no marker: the content is built without a panic, and verifies.
  pub build-verify :
      (current : Text) (plan : ApplyPlan A)
      → IsTidy current
      → plan.rules ≢ []
      → Writable plan.rules
      → (written : Text) × (build_hosts_content current plan ≡ some written)
        × (verify written plan ≡ ok tt)
  build-verify current plan t ne h =
      let (a, built) = build-surrounds current plan t in
      (surrounded a (format_as_hosts plan.rules), built, verify-surrounded a plan ne h)

  rebuilt :
      {current : Text} (a : Around current) (plan : ApplyPlan A) (rs : List (ResolvedRule A))
      → plan.rules ≡ rs
      → rs ≢ []
      → Writable rs
      → build_hosts_content (surrounded a (format_as_hosts rs)) plan
        ≡ some (surrounded a (format_as_hosts rs))
  rebuilt a plan [] e ne h = absurd (ne refl)
  rebuilt a plan (r ∷ rs) e ne h =
      let (_, _, b, front, back) = Block_of_Around a r rs h in
      (build-replaces (surrounded a (format_as_hosts (r ∷ rs))) plan b).1
      ∙ ap (λ x. some (concat b.before ++ (format_as_hosts x ++ concat b.after))) e
      ∙ ap₂ (λ x y. some (concat x ++ (format_as_hosts (r ∷ rs) ++ concat y))) front back

  -- Under the same conditions a second apply of the plan writes the same content again.
  pub build_idem :
      (current : Text) (plan : ApplyPlan A)
      → IsTidy current
      → plan.rules ≢ []
      → Writable plan.rules
      → and_then (build_hosts_content current plan) (λ written. build_hosts_content written plan)
        ≡ build_hosts_content current plan
  build_idem current plan t ne h =
      let (a, built) = build-surrounds current plan t in
      rw built (rebuilt a plan plan.rules refl ne h)
