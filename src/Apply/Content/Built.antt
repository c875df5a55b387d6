-- ===== src/Apply/Content/Built.antt =====
-- What `build_hosts_content` writes: the lines of the user around one fresh managed block.
use mathlib.Core.Option
use m_host.Common.{
  Text, ℕ, suc, none, some, List, [], ◌∷◌, ◌++◌, ap₂, length-append, All, codes, split_inclusive,
  concat, slice_to, slice_from, len, ◌≡◌, refl, ap, sym, ◌∙◌, arith, append_assoc, append-nil,
  Bool-cases, inl, inr, not, ◌&&◌, is_empty, ends_with_char,
}
use m_host.Common.Cutting.{
  len-append, concat-append, concat-split_inclusive, slice_to-append, slice_from-append,
}
use m_host.Common.Pieces.{
  Complete, IsPieces, split_inclusive-IsPieces, Complete-front, split_inclusive-concat,
  IsPieces-back, closed,
}
use m_host.Core.Ip.{IpAddr}
use m_host.Core.Models.{ApplyPlan}
use m_host.Hosts.ManagedBlock.{close, nothing_yet, extract_managed_block_bytes}
use m_host.Hosts.ManagedBlock.Agreement.{offset, offset-front, extract_bytes-eq, in_bytes}
use m_host.Hosts.ManagedBlock.Shape.{Clean, Block, scan-Block, scan-all_Clean, close-both, both}
use m_host.Apply.Plan.{format_as_hosts}
use m_host.Apply.Content.{place_block, replace_block, append_block, build_hosts_content}

-- `current` has lines `front` and `back` around the place of the block; the user's text.
pub record Around (current : Text) : Type 0 where
  pub front : List Text
  pub back : List Text
  pub front_complete : All Complete front
  pub front_clean : Clean front
  pub back_pieces : split_inclusive (concat back) ≡ back
  pub back_clean : Clean back

abbrev pub surrounded : {current : Text} → Around current → Text → Text
surrounded a block = concat a.front ++ (block ++ concat a.back)

Around-Block : {current : Text} {s e : ℕ} → Block (split_inclusive current) s e → Around current
Around-Block {current} b = record {
  front = b.before;
  back = b.after;
  front_complete = Complete-front b.before b.opening (b.inside ++ b.closing ∷ b.after) whole;
  front_clean = b.before_clean;
  back_pieces = split_inclusive-concat b.after (
      IsPieces-back (b.closing ∷ []) b.after (
        IsPieces-back b.inside (b.closing ∷ b.after)
          (IsPieces-back (b.opening ∷ []) _ (IsPieces-back b.before _ whole))));
  back_clean = b.after_clean;
}
  where
    whole : IsPieces (b.before ++ b.opening ∷ (b.inside ++ b.closing ∷ b.after))
    whole = rw b.splits at (split_inclusive-IsPieces current)

pub Around_of_Block :
    {current : Text} {s e : ℕ} (b : Block (split_inclusive current) s e)
    → (a : Around current) × (a.front ≡ b.before) × (a.back ≡ b.after)
unfolding Around-Block
Around_of_Block b = (Around-Block b, refl, refl)

abbrev block_text : {ls : List Text} {s e : ℕ} → Block ls s e → Text
block_text b = b.opening ++ (concat b.inside ++ b.closing)

-- The text, cut around its block.
concat-Block :
    {ls : List Text} {s e : ℕ} (b : Block ls s e)
    → concat ls ≡ concat b.before ++ (block_text b ++ concat b.after)
concat-Block b =
    rw (b.splits, concat-append b.before, concat-append b.inside)
      (ap (λ x. concat b.before ++ x) (simp append_assoc))

front_lines : {ls : List Text} {s e : ℕ} → Block ls s e → List Text
front_lines b = b.before ++ b.opening ∷ (b.inside ++ b.closing ∷ [])

-- A block is found at its bytes.
bytes-Block :
    (current : Text) {s e : ℕ} (b : Block (split_inclusive current) s e)
    → extract_managed_block_bytes current
      ≡ some (len (concat b.before), len (concat b.before ++ block_text b))
unfolding front_lines
bytes-Block current {s} {e} b =
    extract_bytes-eq current
    ∙ ap (λ o. close (Option.map (in_bytes (offset (split_inclusive current))) o)) (scan-Block b)
    ∙ ap₂ (λ x y. close (some (both x y))) start_at end_at
    ∙ close-both _ _ (omega (arith, len-append (concat b.before) (block_text b)))
  where
    concat_front :
        (b : Block (split_inclusive current) s e)
        → concat (front_lines b) ≡ concat b.before ++ block_text b
    concat_front b = simp (concat-append, append-nil)

    start_at : offset (split_inclusive current) s ≡ len (concat b.before)
    start_at = offset-front _ b.before _ s b.splits b.start_is

    end_at : offset (split_inclusive current) (suc e) ≡ len (concat b.before ++ block_text b)
    end_at =
        offset-front _ (front_lines b) b.after (suc e) (b.splits ∙ simp append_assoc) (
          omega (
            arith,
            b.end_is,
            length-append {0} b.before (b.opening ∷ (b.inside ++ b.closing ∷ [])),
            length-append {0} b.inside (b.closing ∷ []),
          ))
        ∙ ap len (concat_front b)

replace_block_lem :
    (current f m b block : Text)
    → current ≡ f ++ (m ++ b)
    → replace_block current block (len f, len (f ++ m)) ≡ some (f ++ (block ++ b))
unfolding replace_block
replace_block_lem current f m b block h =
    let front : slice_to (len f) current ≡ some f = rw h (slice_to-append f (m ++ b)) in
    let back : slice_from (len (f ++ m)) current ≡ some b =
      rw (h, ← append_assoc f m b) (slice_from-append (f ++ m) b) in
    rw (front, back) refl

bytes-Clean :
    (current : Text) → Clean (split_inclusive current) → extract_managed_block_bytes current ≡ none
unfolding close
bytes-Clean current h =
    extract_bytes-eq current
    ∙ ap (λ o. close (Option.map (in_bytes (offset (split_inclusive current))) o))
        (scan-all_Clean (split_inclusive current) 0 nothing_yet h)

module _ {A : Type 0} ⦃ip : IpAddr A⦄ where
  -- With a block in the file, the block is replaced and every other byte stays.
  pub build-replaces :
      (current : Text) (plan : ApplyPlan A) {s e : ℕ} (b : Block (split_inclusive current) s e)
      → (current ≡ concat b.before ++ (block_text b ++ concat b.after))
        × (build_hosts_content current plan
            ≡ some (concat b.before ++ (format_as_hosts plan.rules ++ concat b.after)))
  build-replaces current plan b =
      let whole : current ≡ concat b.before ++ (block_text b ++ concat b.after) =
        sym (concat-split_inclusive current) ∙ concat-Block b in
      (
        whole,
        unfold build_hosts_content place_block in
            rw (bytes-Block current b)
              (replace_block_lem current (concat b.before) (block_text b) (concat b.after) _ whole),
      )

  -- With no marker in the file the block goes behind it, on a line of its own.
  pub build-appends :
      (current : Text) (plan : ApplyPlan A)
      → Clean (split_inclusive current)
      → build_hosts_content current plan ≡ some (closed current ++ format_as_hosts plan.rules)
  unfolding build_hosts_content place_block append_block
  build-appends current plan h =
      rw (bytes-Clean current h)
        (elim (Bool-cases (not (ends_with_char b'\n' current) && not (is_empty current))) [
          | inl e ↦
              rw e (ap some (sym (append_assoc current (codes "\n") (format_as_hosts plan.rules))))
          | inr e ↦ rw e refl
        ])
