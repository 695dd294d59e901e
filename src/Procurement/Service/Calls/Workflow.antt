-- ===== src/Procurement/Service/Calls/Workflow.antt =====
-- Whatever calls are made, each order follows the workflow.
use inventory_management_sys.Base.{ℕ, refl, inl, inr, Option, none, some, List, [], ◌∷◌}
use inventory_management_sys.Base.Result.{Result, ok, err, Ensures}
use inventory_management_sys.Procurement.Tables.{Office}
use inventory_management_sys.Procurement.States.{PoStatus}
use inventory_management_sys.Procurement.States.Workflow.{Step, Route, start, then_step}
use inventory_management_sys.Procurement.Service.Calls.{
  PoCall, acting, taking_in, run, office_after, run_all,
}
use inventory_management_sys.Procurement.Service.Calls.Status.{
  status_of, Follows, Follows-same, apply_action-Ok,
}
use inventory_management_sys.Procurement.Service.Calls.TakingIn.{receive-Ok}

-- A single call leaves every order, the one it is on and the others, in its status or one step of
-- the workflow further, and neither makes nor loses an order.
pub run-Follows :
    (call : PoCall) (office : Office) (k : ℕ)
    → Ensures (λ _ after. Follows (status_of k office) (status_of k after)) (run call office)
unfolding run
run-Follows (acting notify po_id a comment actor) office k =
    (apply_action-Ok office po_id k notify a comment actor).at office refl
run-Follows (taking_in user po_id req) office k =
    (receive-Ok office po_id k user req).at office refl

after-Follows :
    (office : Office) (k : ℕ) (r : Result (Unit {0} × Office))
    → Ensures (λ _ after. Follows (status_of k office) (status_of k after)) r
    → Follows (status_of k office) (status_of k (office_after office r))
after-Follows office k (ok (_, after)) f = f
after-Follows office k (err e) f = Follows-same (status_of k office)

-- An order that is there before and after has gone a route.
abbrev pub Routed : Option PoStatus → Option PoStatus → Type 0
Routed none none = Unit
Routed (some s) (some t) = Route s t
Routed _ _ = ⊥

Route-from : {s t u : PoStatus} → Step s t → Route t u → Route s u
Route-from st start = then_step start st
Route-from st (then_step r next) = then_step (Route-from st r) next

Routed-same : (o : Option PoStatus) → Routed o o
Routed-same none = tt
Routed-same (some s) = start

Follows-Routed : (a b c : Option PoStatus) → Follows a b → Routed b c → Routed a c
Follows-Routed none none none f r = tt
Follows-Routed none none (some u) f r = absurd r
Follows-Routed none (some t) c f r = absurd f
Follows-Routed (some s) none c f r = absurd f
Follows-Routed (some s) (some t) none f r = absurd r
Follows-Routed (some s) (some t) (some u) (inl e) r = rw (← e) r
Follows-Routed (some s) (some t) (some u) (inr st) r = Route-from st r

-- After any sequence of calls, returning or not, each order has gone a route of the workflow from
-- its status before to its status after, and no order has come or gone.
pub run_all-Routed :
    (calls : List PoCall) (office : Office) (k : ℕ)
    → Routed (status_of k office) (status_of k (run_all calls office))
unfolding run_all
run_all-Routed [] office k = Routed-same (status_of k office)
run_all-Routed (call ∷ calls) office k =
    let after = office_after office (run call office) in
    Follows-Routed (status_of k office) (status_of k after) _
      (after-Follows office k (run call office) (run-Follows call office k))
      (run_all-Routed calls after k)
