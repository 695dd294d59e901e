-- ===== src/Dispatch/Reconciled.antt =====
-- When a reconciled receipt is complete.
use inventory_management_sys.Base.{
  ◌≡◌, ◌↔◌, refl, true, inl, inr, Bool-cases, List, all, All, All-both, all-All, arith,
}
use inventory_management_sys.Base.Int.{pos, ◌≤ℤ◌, int_laws}
use inventory_management_sys.Dispatch.{
  received, NoteLine, line_reconciles, is_clean, receive_outcome,
}

-- Nothing of the line is missing or damaged.
abbrev pub Whole : NoteLine → Type 0
Whole l = (l.missing ≤ℤ pos 0) × (l.damaged ≤ℤ pos 0)

clean-Whole : (l : NoteLine) → line_reconciles l ≡ true → (is_clean l ≡ true) ↔ Whole l
unfolding line_reconciles
clean-Whole l h = (λ c. (ground arith, ground arith), λ w. grind int_laws)

outcome_iff :
    (lines : List NoteLine) → (receive_outcome lines ≡ received) ↔ (all is_clean lines ≡ true)
unfolding receive_outcome
outcome_iff lines = elim (Bool-cases (all is_clean lines)) [
  | inl clean ↦ rw clean (λ e. refl, λ e. refl)
  | inr short ↦ rw short (λ e. absurd (ground arith), λ e. absurd (ground arith))
]

-- Where every line reconciles, the note is received in full exactly when nothing of any line is
-- missing or damaged.
pub receive_outcome_iff :
    (lines : List NoteLine)
    → All (λ l. line_reconciles l ≡ true) lines
    → (receive_outcome lines ≡ received) ↔ All Whole lines
receive_outcome_iff lines h = (
  λ e.
      All-both _ _ _ (λ l r c. (clean-Whole l r).0 c) lines h
        ((all-All is_clean lines).0 ((outcome_iff lines).0 e)),
  λ w.
      (outcome_iff lines).1
        ((all-All is_clean lines).1 (All-both _ _ _ (λ l r c. (clean-Whole l r).1 c) lines h w)),
)
