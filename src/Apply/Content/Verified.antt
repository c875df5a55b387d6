-- ===== src/Apply/Content/Verified.antt =====
-- What is written passes the verification, and a second apply writes it again.
use m_host.Common.{
  Text, ℕ, suc, ◌+◌, ◌-◌, true, false, some, List, [], ◌∷◌, ◌++◌, ap₂, All, All-append, codes,
  lines, split_inclusive, concat, length, map, take, drop, strip_line_end, join_lines, map-append,
  eqb_refl, eqb, leb, ◌≡◌, ◌≢◌, refl, ap, sym, ◌∙◌, arith, append_assoc, append-nil, trim,
  is_whitespace,
}
use m_host.Common.Result.{ok}
use m_host.Common.Sort.{mem_text}
use m_host.Common.Cutting.{concat-append, strip_line_end-line}
use m_host.Common.Pieces.{Complete, split_inclusive-Complete}
use m_host.Core.Ip.{IpAddr}
use m_host.Core.Models.{ResolvedRule, ApplyPlan}
use m_host.Hosts.ManagedBlock.{start, end, mark_of, extract_managed_block_content, content_between}
use m_host.Hosts.ManagedBlock.Agreement.{kind}
use m_host.Hosts.ManagedBlock.Shape.{Clean, Block, extract_managed_block-Block}
use m_host.Apply.Diff.{mapping_line, target_buf}
use m_host.Apply.Plan.{format_as_hosts}
use m_host.Apply.Verification.{check_rules, verify_rules, verify}
use m_host.Apply.Content.Lines.{
  IsWritable, IsLine, mapping_line-IsLine, kind-mapping_line, lines-join_lines,
}
use m_host.Apply.Content.Built.{Around, surrounded}

-- The lines of the markers, as `format_as_hosts` writes them.
start_piece : Text
start_piece = codes "# ---- mHost start ----\n"

end_piece : Text
end_piece = codes "# ---- mHost end ----\n"

start_piece-Complete : Complete start_piece
unfolding start_piece
start_piece-Complete = record {
  line = codes "# ---- mHost start ----";
  breaks = refl;
  one_line = refl;
}

end_piece-Complete : Complete end_piece
unfolding end_piece
end_piece-Complete = record { line = codes "# ---- mHost end ----"; breaks = refl; one_line = refl }

kind-start_piece : kind start_piece ≡ start
unfolding start_piece mark_of eqb trim is_whitespace
kind-start_piece = refl

kind-end_piece : kind end_piece ≡ end
unfolding end_piece mark_of eqb trim is_whitespace
kind-end_piece = refl

regroup :
    (front ms : List Text) (s e t back : Text)
    → t ≡ concat ms
    → concat front ++ ((s ++ (t ++ e)) ++ back) ≡ concat (front ++ s ∷ (ms ++ e ∷ [])) ++ back
regroup front ms s e t back h =
    rw (h, concat-append front, concat-append ms) (simp (append_assoc, append-nil))

between :
    (front ms back : List Text) (x : Text)
    → take (length ms) (drop (suc (length front)) (front ++ x ∷ (ms ++ back))) ≡ ms
between [] [] [] x = refl
between [] [] (b ∷ back) x = refl
between [] (m ∷ ms) back x = ap (◌∷◌ m) (between [] ms back x)
between (f ∷ front) ms back x = between front ms back x

content_middle :
    (front ms back : List Text) (x : Text) (s e : ℕ)
    → s ≡ length front
    → e ≡ suc (s + length ms)
    → ms ≢ []
    → content_between (front ++ x ∷ (ms ++ back)) (s, e) ≡ join_lines ms
unfolding content_between
content_middle front [] back x s e h k ne = absurd (ne refl)
content_middle front (m ∷ ms) back x s e h k ne =
    let count : e - (s + 1) ≡ length (m ∷ ms) = omega arith in
    let more : leb e (s + 1) ≡ false = ground arith in
    let from : s + 1 ≡ suc (length front) = omega arith in
    rw (more, count, from) (ap join_lines (between front (m ∷ ms) back x))

length-map {ℓ} : {A B : Type ℓ} (f : A → B) (xs : List A) → length (map f xs) ≡ length xs
length-map f [] = refl
length-map f (x ∷ xs) = ap suc (length-map f xs)

mem_middle : (xs ys : List Text) (t : Text) → mem_text t (xs ++ t ∷ ys) ≡ true
mem_middle [] ys t = rw (eqb_refl t) refl
mem_middle (x ∷ xs) ys t = ground (arith, mem_middle xs ys t)

module _ {A : Type 0} ⦃ip : IpAddr A⦄ where
  -- Every domain of the plan can be written on a line.
  abbrev pub Writable : List (ResolvedRule A) → Type 0
  Writable rules = All (λ r. IsWritable r.domain) rules

  abbrev line_of : ResolvedRule A → Text
  line_of r = mapping_line r.ip r.domain

  abbrev piece_of : ResolvedRule A → Text
  piece_of r = line_of r ++ codes "\n"

  target_buf-concat : (rs : List (ResolvedRule A)) → target_buf rs ≡ concat (map piece_of rs)
  unfolding target_buf
  target_buf-concat [] = refl
  target_buf-concat (r ∷ rs) =
      rw (target_buf-concat rs)
        (sym (append_assoc (line_of r) (codes "\n") (concat (map piece_of rs))))

  pieces-Complete : (rs : List (ResolvedRule A)) → Writable rs → All Complete (map piece_of rs)
  pieces-Complete [] h = tt
  pieces-Complete (r ∷ rs) h = (
    record {
      line = line_of r;
      breaks = refl;
      one_line = (mapping_line-IsLine r.ip r.domain h.0).one_line;
    },
    pieces-Complete rs h.1,
  )

  pieces-Clean : (rs : List (ResolvedRule A)) → Clean (map piece_of rs)
  pieces-Clean [] = tt
  pieces-Clean (r ∷ rs) = (kind-mapping_line r.ip r.domain (codes "\n"), pieces-Clean rs)

  lines-IsLine : (rs : List (ResolvedRule A)) → Writable rs → All IsLine (map line_of rs)
  lines-IsLine [] h = tt
  lines-IsLine (r ∷ rs) h = (mapping_line-IsLine r.ip r.domain h.0, lines-IsLine rs h.1)

  lines_of_pieces :
      (rs : List (ResolvedRule A))
      → Writable rs
      → map strip_line_end (map piece_of rs) ≡ map line_of rs
  lines_of_pieces [] h = refl
  lines_of_pieces (r ∷ rs) h =
      ap₂ ◌∷◌ (strip_line_end-line (line_of r) (mapping_line-IsLine r.ip r.domain h.0).returns)
        (lines_of_pieces rs h.1)

  -- The pieces of the file with a fresh block in it.
  with_block : List Text → List (ResolvedRule A) → List Text → List Text
  with_block front rs back = front ++ start_piece ∷ (map piece_of rs ++ end_piece ∷ back)

  format_pieces :
      (r : ResolvedRule A) (rs : List (ResolvedRule A))
      → format_as_hosts (r ∷ rs) ≡ start_piece ++ (target_buf (r ∷ rs) ++ end_piece)
  unfolding format_as_hosts start_piece end_piece
  format_pieces r rs = refl

  surrounded-pieces :
      {current : Text} (a : Around current) (r : ResolvedRule A) (rs : List (ResolvedRule A))
      → Writable (r ∷ rs)
      → split_inclusive (surrounded a (format_as_hosts (r ∷ rs)))
        ≡ with_block a.front (r ∷ rs) a.back
  unfolding with_block
  surrounded-pieces a r rs h =
      let ms = map piece_of (r ∷ rs) in
      ap (λ x. split_inclusive (concat a.front ++ (x ++ concat a.back))) (format_pieces r rs)
      ∙ ap split_inclusive (
          regroup a.front ms start_piece end_piece (target_buf (r ∷ rs)) (concat a.back)
            (target_buf-concat (r ∷ rs)))
      ∙ split_inclusive-Complete (a.front ++ start_piece ∷ (ms ++ end_piece ∷ [])) (concat a.back) (
          All-append Complete a.front _ a.front_complete (
            start_piece-Complete,
            All-append Complete ms _ (pieces-Complete (r ∷ rs) h) (end_piece-Complete, tt),
          ))
      ∙ rw a.back_pieces (simp append_assoc)

  Block_written :
      {current : Text} (a : Around current) (r : ResolvedRule A) (rs : List (ResolvedRule A))
      → Writable (r ∷ rs)
      → Block
          (split_inclusive (surrounded a (format_as_hosts (r ∷ rs))))
          (length a.front)
          (suc (length a.front + length (map piece_of (r ∷ rs))))
  unfolding with_block
  Block_written a r rs h = record {
    before = a.front;
    opening = start_piece;
    inside = map piece_of (r ∷ rs);
    closing = end_piece;
    after = a.back;
    splits = surrounded-pieces a r rs h;
    before_clean = a.front_clean;
    is_opening = kind-start_piece;
    inside_clean = pieces-Clean (r ∷ rs);
    is_closing = kind-end_piece;
    after_clean = a.back_clean;
    start_is = refl;
    end_is = refl;
  }

  pub Block_of_Around :
      {current : Text} (a : Around current) (r : ResolvedRule A) (rs : List (ResolvedRule A))
      → Writable (r ∷ rs)
      → (s : ℕ) × (e : ℕ) × (b : Block
          (split_inclusive (surrounded a (format_as_hosts (r ∷ rs))))
          s
          e)
        × (b.before ≡ a.front)
        × (b.after ≡ a.back)
  unfolding Block_written
  Block_of_Around a r rs h = (_, _, Block_written a r rs h, refl, refl)

  lines_written :
      {current : Text} (a : Around current) (r : ResolvedRule A) (rs : List (ResolvedRule A))
      → Writable (r ∷ rs)
      → lines (surrounded a (format_as_hosts (r ∷ rs)))
        ≡ map strip_line_end a.front
          ++ strip_line_end start_piece
            ∷ (map line_of (r ∷ rs) ++ map strip_line_end (end_piece ∷ a.back))
  unfolding lines with_block
  lines_written a r rs h =
      ap (map strip_line_end) (surrounded-pieces a r rs h)
      ∙ map-append strip_line_end a.front _
      ∙ ap (λ x. map strip_line_end a.front ++ strip_line_end start_piece ∷ x)
          (map-append strip_line_end (map piece_of (r ∷ rs)) (end_piece ∷ a.back)
            ∙ ap (λ x. x ++ map strip_line_end (end_piece ∷ a.back)) (lines_of_pieces (r ∷ rs) h))

  -- The content of the block that was written: a line for each rule.
  pub content_written :
      {current : Text} (a : Around current) (r : ResolvedRule A) (rs : List (ResolvedRule A))
      → Writable (r ∷ rs)
      → extract_managed_block_content (surrounded a (format_as_hosts (r ∷ rs)))
        ≡ some (join_lines (map line_of (r ∷ rs)))
  unfolding extract_managed_block_content
  content_written a r rs h =
      let s = length a.front in
      let ms = map line_of (r ∷ rs) in
      let e = suc (s + length (map piece_of (r ∷ rs))) in
      let found = (extract_managed_block-Block _ s e).1 (Block_written a r rs h) in
      rw found (
        ap some (
          ap (λ ls. content_between ls (s, e)) (lines_written a r rs h)
          ∙ content_middle (map strip_line_end a.front) ms (map strip_line_end (end_piece ∷ a.back))
              (strip_line_end start_piece) s e (omega (arith, length-map strip_line_end a.front))
              (omega (arith, length-map piece_of (r ∷ rs), length-map line_of (r ∷ rs))) (λ d. cc)))

  check_rules-mem :
      (ws xs : List Text) (rs : List (ResolvedRule A))
      → ws ≡ xs ++ map line_of rs
      → check_rules ws rs ≡ ok tt
  unfolding check_rules
  check_rules-mem ws xs [] h = refl
  check_rules-mem ws xs (r ∷ rs) h =
      let found : mem_text (line_of r) ws ≡ true =
        rw h (mem_middle xs (map line_of rs) (line_of r)) in
      rw found (
        check_rules-mem ws (xs ++ line_of r ∷ []) rs
          (h ∙ sym (append_assoc xs (line_of r ∷ []) (map line_of rs))))

  verify_rules-surrounded :
      {current : Text} (a : Around current) (rs : List (ResolvedRule A))
      → rs ≢ []
      → Writable rs
      → verify_rules (surrounded a (format_as_hosts rs)) rs ≡ ok tt
  unfolding verify_rules
  verify_rules-surrounded a [] ne h = absurd (ne refl)
  verify_rules-surrounded a (r ∷ rs) ne h =
      let found = (extract_managed_block-Block _ _ _).1 (Block_written a r rs h) in
      rw
        (
          found,
          content_written a r rs h,
          lines-join_lines (map line_of (r ∷ rs)) (lines-IsLine (r ∷ rs) h),
        )
        (check_rules-mem (map line_of (r ∷ rs)) [] (r ∷ rs) refl)

  -- A written plan with rules passes the verification.
  pub verify-surrounded :
      {current : Text} (a : Around current) (plan : ApplyPlan A)
      → plan.rules ≢ []
      → Writable plan.rules
      → verify (surrounded a (format_as_hosts plan.rules)) plan ≡ ok tt
  unfolding verify
  verify-surrounded a plan ne h = verify_rules-surrounded a plan.rules ne h
