-- ===== src/Commands/ProfileIo/Names.antt =====
-- When a name for a new profile is found, and that it is free.
use m_host.Common.{
  Text, ℕ, zero, suc, ◌+◌, ◌≤◌, true, false, List, ◌≡◌, refl, subst, arith, leb, Bool-cases, inl,
  inr,
}
use m_host.Common.Result.{ok-inj, ok, err}
use m_host.Common.Sort.{mem_text}
use m_host.Commands.ProfileIo.{IoError, free_name, free_candidate, candidate, max_iterations}

-- The names that are free and the numbers that are taken, where the loop ends.
free_candidate_lem :
    (existing : List Text) (name : Text) (rounds counter : ℕ)
    → ((new : Text)
        → free_candidate existing name rounds counter ≡ ok new
        → mem_text new existing ≡ false)
      × ((why : IoError)
          → free_candidate existing name rounds counter ≡ err why
          → (k : ℕ) → counter ≤ k
          → k ≤ max_iterations
          → suc k ≤ counter + rounds
          → mem_text (candidate name k) existing ≡ true)
unfolding free_candidate
free_candidate_lem existing name zero counter =
    (λ new h. absurd (cc), λ why h k a b c. absurd (ground arith))
free_candidate_lem existing name (suc rounds) counter =
    let (later_free, later_taken) = free_candidate_lem existing name rounds (counter + 1) in
    let here = candidate name counter in
    elim (Bool-cases (leb counter max_iterations)) [
      | inr over ↦
          rw over (λ new h. absurd (cc), λ why h k a b c. absurd (ground (arith, over, a, b)))
      | inl within ↦ rw within elim (Bool-cases (mem_text here existing)) [
        | inr free ↦ rw free (
          λ new h. subst (λ n. mem_text n existing ≡ false) (ok-inj h) free,
          λ why h k a b c. absurd (cc),
        )
        | inl taken ↦ rw taken (
          later_free,
          λ why h k a b c. elim (Bool-cases (leb (suc counter) k)) [
            | inl later ↦ later_taken why h k (ground arith) b (ground arith)
            | inr now ↦
                let same : counter ≡ k = ground arith in
                subst (λ j. mem_text (candidate name j) existing ≡ true) same taken
          ],
        )
      ]
    ]

-- A name that is chosen is free, and none is chosen only where the name and its numbers 2 to 100
-- are taken.
pub free_name_lem :
    (existing : List Text) (name : Text)
    → ((new : Text) → free_name existing name ≡ ok new → mem_text new existing ≡ false)
      × ((why : IoError)
          → free_name existing name ≡ err why
          → (mem_text name existing ≡ true)
            × ((k : ℕ) → 2 ≤ k → k ≤ max_iterations → mem_text (candidate name k) existing ≡ true))
unfolding free_name
free_name_lem existing name =
    let (later_free, later_taken) = free_candidate_lem existing name max_iterations 2 in
    elim (Bool-cases (mem_text name existing)) [
      | inr free ↦
          rw free (
            λ new h. subst (λ n. mem_text n existing ≡ false) (ok-inj h) free,
            λ why h. absurd (cc),
          )
      | inl taken ↦
          rw taken (later_free, λ why h. (refl, λ k a b. later_taken why h k a b (ground arith)))
    ]
