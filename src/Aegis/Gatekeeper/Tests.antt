-- ===== src/Aegis/Gatekeeper/Tests.antt =====
-- Two requests in one second for gatekeeper.py.
use kryvaracode.Common.{◌≡◌, refl, true, false, none, List, [], ◌∷◌}
use kryvaracode.Common.Dict.{lookup, insert, without}
use kryvaracode.Aegis.Pattern.{search}
use kryvaracode.Aegis.Gatekeeper.{
  new_gatekeeper, request_id_of, request_approval, verify_action_permit, process_response,
  simulate_operator_response, is_destructive,
}
use kryvaracode.Aegis.Gatekeeper.Permits.{Asked, ask_all, last_answer, ask_all-permits}

abbrev asked : List Asked
asked =
    record { stamp = "17"; action_id = "wipe"; description = "delete all"; risk_level = "CRITICAL" }
    ∷ record { stamp = "17"; action_id = "read"; description = "read all"; risk_level = "CRITICAL" }
    ∷ []

answers :
    (verify_action_permit (request_id_of "17" "wipe") (ask_all asked new_gatekeeper) ≡ false)
    × (verify_action_permit (request_id_of "17" "read") (ask_all asked new_gatekeeper) ≡ true)
unfolding new_gatekeeper ask_all request_approval verify_action_permit process_response
    simulate_operator_response is_destructive search lookup insert without
answers = (refl, refl)

ask_all-permits_example :
    (verify_action_permit (request_id_of "17" "wipe") (ask_all asked new_gatekeeper)
      ≡ last_answer (request_id_of "17" "wipe") asked false)
    × (lookup (request_id_of "17" "wipe") (ask_all asked new_gatekeeper).pending_requests ≡ none)
ask_all-permits_example = ask_all-permits asked (request_id_of "17" "wipe")
