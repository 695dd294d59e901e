-- ===== src/Handovers/Completion.antt =====
-- When a handover can be completed.
use inventory_management_sys.Base.{
  ℕ, ◌≡◌, ◌≢◌, ◌↔◌, refl, String, Bool, true, false, not, Option, none, some, List, [], arith,
}
use inventory_management_sys.Base.Int.{pos, ◌≤ℤ◌, ltb_ℤ}
use inventory_management_sys.Handovers.{
  Handover, CompletionError, outstanding_balance, quality_control, branch_manager,
  customer_signature, delivery, amount, is_blank, is_missing, report_if, completion_errors,
}

report_if_iff :
    (c : Bool) (e : CompletionError) (errors : List CompletionError)
    → (report_if c e errors ≡ []) ↔ ((c ≡ false) × (errors ≡ []))
report_if_iff true e errors = (λ h. absurd (ground arith), λ (h, k). absurd (ground arith))
report_if_iff false e errors = (λ h. (refl, h), λ (h, k). k)

dated-there : (o : Option ℕ) → is_missing o ≡ false → o ≢ none
dated-there none e = absurd (ground arith)
dated-there (some d) e = λ f. ground arith

there-dated : (o : Option ℕ) → o ≢ none → is_missing o ≡ false
there-dated none n = absurd (n refl)
there-dated (some d) n = refl

-- A handover can be completed, without an error, exactly when no balance is outstanding, quality
-- control and the branch manager have signed, the name of the customer is not blank and the
-- delivery is dated.
pub completion_errors_iff :
    (strip : String → String) (h : Handover)
    → (completion_errors strip h ≡ []) ↔ (
        (amount h.balance_zmw ≤ℤ pos 0)
        × (h.quality_control_officer_signed ≡ true)
        × (h.branch_manager_signed ≡ true)
        × (is_blank strip h.customer_signature_name ≡ false)
        × (h.delivery_date ≢ none))
unfolding completion_errors
completion_errors_iff strip h =
    let due = ltb_ℤ (pos 0) (amount h.balance_zmw) in
    let unsigned = is_blank strip h.customer_signature_name in
    let undated = is_missing h.delivery_date in
    let e5 = report_if undated delivery [] in
    let e4 = report_if unsigned customer_signature e5 in
    let e3 = report_if (not h.branch_manager_signed) branch_manager e4 in
    let e2 = report_if (not h.quality_control_officer_signed) quality_control e3 in
    let i1 = report_if_iff due outstanding_balance e2 in
    let i2 = report_if_iff (not h.quality_control_officer_signed) quality_control e3 in
    let i3 = report_if_iff (not h.branch_manager_signed) branch_manager e4 in
    let i4 = report_if_iff unsigned customer_signature e5 in
    let i5 = report_if_iff undated delivery [] in
    (
      λ none_left.
          let s1 = i1.0 none_left in
          let s2 = i2.0 s1.1 in
          let s3 = i3.0 s2.1 in
          let s4 = i4.0 s3.1 in
          let s5 = i5.0 s4.1 in
          (
            ground (arith, s1.0),
            ground (arith, s2.0),
            ground (arith, s3.0),
            s4.0,
            λ gone. absurd (dated-there h.delivery_date s5.0 gone),
          ),
      λ (paid, quality, manager, name, date). i1.1 (
        ground arith,
        i2.1 (
          rw quality refl,
          i3.1 (rw manager refl, i4.1 (name, i5.1 (there-dated h.delivery_date date, refl))),
        ),
      ),
    )
