-- ===== src/Forge/Manager/Tests.antt =====
-- A capability whose runs end well, and one whose runs fail, for manager.py.
use kryvaracode.Common.{◌≡◌, refl, String, false, ◌&&◌, none, some, [], ◌∷◌, ◌==◌, if◌then◌else◌}
use kryvaracode.Common.Dict.{Dict}
use kryvaracode.Forge.Registry.{new_registry, get_tool}
use kryvaracode.Forge.Manager.{
  Spec, ParameterInfo.described, Argument, Ran, Ran.returned, Synthesis, Synthesis.code_of, verify,
  verify_from, Verified.finished, Log.runtime_error, generate_test_cases, definition_of,
  forge_capability,
}
use kryvaracode.Forge.Manager.Forged.{goes_live, named_live, forge_capability-registers}

abbrev spec : Spec
spec = record {
  name = some "sum";
  description = "adds";
  parameters = ("a", described (some "int")) ∷ [];
  schema = "{}";
  logic_hint = "";
}

abbrev execute : String → Dict Argument → Ran
execute code args = if code == "bad" then returned "None" (some "boom") else returned "7" none

abbrev synthesize : Spec → Synthesis
synthesize s = code_of "def execute(a): return 7"

bad_code :
    verify execute "bad" (generate_test_cases spec) ≡ finished false (runtime_error 1 "boom" ∷ [])
unfolding verify verify_from generate_test_cases
bad_code = refl

forge_capability-registers_example :
    let after = forge_capability execute synthesize 5 spec new_registry in
    (after.1.0 ≡ goes_live execute synthesize spec)
    × (get_tool "sum" after.0 ≡ (
        if goes_live execute synthesize spec && named_live execute synthesize "sum" spec
        then some (definition_of execute synthesize 5 "sum" spec)
        else get_tool "sum" new_registry))
forge_capability-registers_example =
    forge_capability-registers execute synthesize 5 "sum" spec new_registry
