-- ===== src/Aegis/Gatekeeper/Permits.antt =====
-- gatekeeper.py: what a run of approval requests leaves behind.
use kryvaracode.Common.{
  ◌≡◌, refl, String, Bool, false, ◌==◌, not, none, List, [], ◌∷◌, arith, eq_iff, if◌then◌else◌,
  Option-cases, inl, inr,
}
use kryvaracode.Common.Dict.{lookup, insert, lookup-insert, lookup-without}
use kryvaracode.Aegis.Gatekeeper.{
  AegisGatekeeper, ApprovalRequest, ApprovalResponse, is_destructive, simulate_operator_response,
  process_response, request_of, request_approval, verify_action_permit, is_approved, new_gatekeeper,
}

-- One call of `request_approval`: the printed second, the action, its description and its risk.
pub record Asked : Type 0 where
  pub stamp : String
  pub action_id : String
  pub description : String
  pub risk_level : String

abbrev pub request : Asked → ApprovalRequest
request a = request_of a.stamp a.action_id a.description a.risk_level

unfoldable pub ask_all : List Asked → AegisGatekeeper → AegisGatekeeper
ask_all [] g = g
ask_all (a ∷ later) g =
    ask_all later (request_approval a.stamp a.action_id a.description a.risk_level g).0

-- What the last call with an identifier was answered, `permit` if there is none.
abbrev pub last_answer : String → List Asked → Bool → Bool
last_answer id [] permit = permit
last_answer id (a ∷ later) permit =
    last_answer id later
      (if (request a).request_id == id then not (is_destructive (request a)) else permit)

process_response_lem :
    (response : ApprovalResponse) (id : String) (g : AegisGatekeeper)
    → (verify_action_permit id (process_response response g) ≡ (
        if response.request_id == id
        then is_approved response.status
        else verify_action_permit id g))
      × (lookup id (process_response response g).pending_requests
          ≡ (if response.request_id == id then none else lookup id g.pending_requests))
unfolding process_response verify_action_permit
process_response_lem response id g =
    let key = response.request_id in
    (
      ground (arith, eq_iff key id, lookup-insert key id response g.approval_history),
      elim (Option-cases (lookup key g.pending_requests)) [
        | inl e ↦ rw e (ground (arith, e, eq_iff key id))
        | inr (r, e) ↦ rw e (lookup-without key id g.pending_requests)
      ],
    )

is_approved-simulate_operator_response :
    (r : ApprovalRequest)
    → (is_approved (simulate_operator_response r).status ≡ not (is_destructive r))
      × ((simulate_operator_response r).request_id ≡ r.request_id)
unfolding simulate_operator_response
is_approved-simulate_operator_response r = ground arith

-- One call: its answer, the permits, and the requests that wait.
request_approval_lem :
    (a : Asked) (id : String) (g : AegisGatekeeper)
    → let after = request_approval a.stamp a.action_id a.description a.risk_level g in
      (after.1 ≡ not (is_destructive (request a)))
      × (verify_action_permit id after.0 ≡ (
          if (request a).request_id == id
          then not (is_destructive (request a))
          else verify_action_permit id g))
      × (lookup id after.0.pending_requests
          ≡ (if (request a).request_id == id then none else lookup id g.pending_requests))
unfolding request_approval simulate_operator_response verify_action_permit
request_approval_lem a id g =
    let r = request a in
    let waiting = record g { pending_requests = insert r.request_id r g.pending_requests } in
    let (permit, waits) = process_response_lem (simulate_operator_response r) id waiting in
    let (answer, same) = is_approved-simulate_operator_response r in
    (
      answer,
      ground (arith, permit, answer, same),
      ground (
        arith,
        waits,
        same,
        eq_iff r.request_id id,
        lookup-insert r.request_id id r g.pending_requests,
      ),
    )

ask_all_lem :
    (asked : List Asked) (id : String) (g : AegisGatekeeper)
    → (verify_action_permit id (ask_all asked g) ≡ last_answer id asked (verify_action_permit id g))
      × (lookup id g.pending_requests ≡ none → lookup id (ask_all asked g).pending_requests ≡ none)
unfolding ask_all
ask_all_lem [] id g = (refl, λ h. h)
ask_all_lem (a ∷ later) id g =
    let (answer, permit, waiting) = request_approval_lem a id g in
    let next = (request_approval a.stamp a.action_id a.description a.risk_level g).0 in
    let (permits, waits) = ask_all_lem later id next in
    (rw permit at permits, λ h. waits (ground (arith, waiting)))

-- However many approvals are asked for, under whatever identifiers: afterwards an identifier is permitted
-- exactly if the last request under it was, and no request waits. A request is refused exactly if it is
-- critical and its description contains DELETE, in whatever case.
pub ask_all-permits :
    (asked : List Asked) (id : String)
    → (verify_action_permit id (ask_all asked new_gatekeeper) ≡ last_answer id asked false)
      × (lookup id (ask_all asked new_gatekeeper).pending_requests ≡ none)
unfolding new_gatekeeper verify_action_permit lookup
ask_all-permits asked id =
    let (permits, waits) = ask_all_lem asked id new_gatekeeper in (permits, waits refl)
