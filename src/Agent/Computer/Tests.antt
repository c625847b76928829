-- ===== src/Agent/Computer/Tests.antt =====
-- Commands for computer.py.
use kryvaracode.Common.{◌≡◌, refl, true, false, String, [], ◌∷◌}
use kryvaracode.Coordination.Topics.{codes}
use kryvaracode.Core.Exceptions.{Result.ok, is_ok}
use kryvaracode.Aegis.Pattern.{search}
use kryvaracode.Common.Texts.{lstrip, rstrip}
use kryvaracode.Agent.Computer.{
  check_command, blocked_patterns, is_blocked, lowered, registry_delete, shell_metachars, may_kill,
  windows_remove,
}
use kryvaracode.Agent.Computer.Policy.{HasNone, check_command-passes}

abbrev hive : String
hive = "reg delete HKLM"

commands :
    (is_ok (check_command (codes "rm -fr x")) ≡ false)
    × (is_ok (check_command (codes "ls | wc")) ≡ false)
    × (is_ok (check_command (codes hive)) ≡ true)
    × (is_blocked (windows_remove "del" ∷ []) (lowered (codes "DEL /s C:")) ≡ false)
    × (may_kill 77 77 ≡ false)
unfolding check_command lowered lstrip rstrip is_blocked blocked_patterns search may_kill
    windows_remove
commands = (refl, refl, refl, refl, refl)

check_command-passes_example :
    (check_command (codes hive) ≡ ok tt → HasNone shell_metachars (codes hive))
    × (search registry_delete (lowered (codes hive)) ≡ false)
check_command-passes_example = check_command-passes (codes hive)
