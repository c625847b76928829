-- ===== src/Aegis/Gatekeeper.antt =====
-- src/agent/aegis/gatekeeper.py: the approval of risky actions. The seconds of the clock that a request's
-- identifier holds are an argument, printed (`stamp`). Context and timestamps are read by nothing
-- and left out. `upper` is read on ASCII.
pub mod Permits
mod Tests
use Prim.Native.String.{◌++◌ as text_append}
use kryvaracode.Common.{
  ℕ, ◌-◌, String, Bool, true, false, ◌&&◌, Option, none, some, List, map, ◌==◌, eqb, leb, is_some,
  if◌then◌else◌,
}
use kryvaracode.Common.Dict.{Dict, lookup, insert, without}
use kryvaracode.Coordination.Topics.{codes}
use kryvaracode.Aegis.Pattern.{literal, search}

pub data ApprovalStatus : Type 0 where
  pending approved rejected expired : ApprovalStatus

abbrev pub is_approved : ApprovalStatus → Bool
is_approved approved = true
is_approved _ = false

pub record ApprovalRequest : Type 0 where
  pub request_id : String
  pub action_id : String
  pub description : String
  pub risk_level : String

pub record ApprovalResponse : Type 0 where
  pub request_id : String
  pub status : ApprovalStatus
  pub operator_id : String
  pub reason : Option String

pub record AegisGatekeeper : Type 0 where
  pub pending_requests : Dict ApprovalRequest
  pub approval_history : Dict ApprovalResponse

-- `__init__`
unfoldable pub new_gatekeeper : AegisGatekeeper
new_gatekeeper = record { pending_requests = List.[]; approval_history = List.[] }

-- `c.upper()` of an ASCII character
abbrev pub upper : ℕ → ℕ
upper c = if leb 97 c && leb c 122 then c - 32 else c

-- `"DELETE" in description.upper() and risk_level == "CRITICAL"`
unfoldable pub is_destructive : ApprovalRequest → Bool
unfolding search
is_destructive request =
    search (literal (codes "DELETE")) (map upper (codes request.description))
    && (request.risk_level == "CRITICAL")

unfoldable pub simulate_operator_response : ApprovalRequest → ApprovalResponse
unfolding is_destructive
simulate_operator_response request =
    let answer = is_destructive request in
    record {
      request_id = request.request_id;
      status = if answer then rejected else approved;
      operator_id = "simulated_operator_01";
      reason = some (
          if answer
          then "Destructive action rejected by operator."
          else "Action within safety parameters.");
    }

-- `del` of a missing key is not reached, so the deletion is `without`.
unfoldable pub process_response : ApprovalResponse → AegisGatekeeper → AegisGatekeeper
process_response response g = record {
  approval_history = insert response.request_id response g.approval_history;
  pending_requests =
      if is_some (lookup response.request_id g.pending_requests)
      then without response.request_id g.pending_requests
      else g.pending_requests;
}

-- `f"req_{int(datetime.now().timestamp())}_{action_id}"`
abbrev pub request_id_of : String → String → String
request_id_of stamp action_id = text_append "req_" (text_append stamp (text_append "_" action_id))

abbrev pub request_of : String → String → String → String → ApprovalRequest
request_of stamp action_id description risk_level = record {
  request_id = request_id_of stamp action_id;
  action_id = action_id;
  description = description;
  risk_level = risk_level;
}

unfoldable pub request_approval :
    String → String → String → String → AegisGatekeeper → AegisGatekeeper × Bool
unfolding simulate_operator_response process_response
request_approval stamp action_id description risk_level g =
    let request = request_of stamp action_id description risk_level in
    let waiting = record g {
      pending_requests = insert request.request_id request g.pending_requests;
    } in
    let response = simulate_operator_response request in
    (process_response response waiting, is_approved response.status)

unfoldable pub verify_action_permit : String → AegisGatekeeper → Bool
verify_action_permit request_id g = elim (lookup request_id g.approval_history) [
  | none ↦ false
  | some response ↦ is_approved response.status
]
