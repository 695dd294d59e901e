-- ===== src/Issuance/Returns.antt =====
-- When issued goods are returned.
use inventory_management_sys.Base.{
  ◌≡◌, ◌↔◌, refl, true, false, List, [], ◌∷◌, all, All, all-All, All-map, arith,
}
use inventory_management_sys.Base.Int.{ℤ, ◌≤ℤ◌}
use inventory_management_sys.Issuance.{returned, partially_returned, is_accounted, return_outcome}

accounted_iff :
    (lines : List (ℤ × ℤ)) → (all is_accounted lines ≡ true) ↔ All (λ (l : ℤ × ℤ). l.0 ≤ℤ l.1) lines
accounted_iff lines = (
  λ e. All-map _ _ (λ l h. ground arith) lines ((all-All is_accounted lines).0 e),
  λ a. (all-All is_accounted lines).1 (All-map _ _ (λ l h. ground arith) lines a),
)

-- An issuance is returned exactly when all that it has lent, which may be nothing, is accounted
-- for, and else it is partially returned.
pub return_outcome_iff :
    (lines : List (ℤ × ℤ))
    → ((return_outcome lines ≡ returned) ↔ All (λ (l : ℤ × ℤ). l.0 ≤ℤ l.1) lines)
      × ((return_outcome lines ≡ partially_returned) ↔ (all is_accounted lines ≡ false))
unfolding return_outcome
return_outcome_iff [] =
    ((λ e. tt, λ a. refl), (λ e. absurd (ground arith), λ e. absurd (ground arith)))
return_outcome_iff (line ∷ lines) = (
  (
    λ e. (accounted_iff (line ∷ lines)).0 (ground arith),
    λ a. rw ((accounted_iff (line ∷ lines)).1 a) refl,
  ),
  (λ e. ground arith, λ e. rw e refl),
)
