-- ===== src/Forge/Manager/Forged.antt =====
-- manager.py and verifier.py: which capabilities go live.
use kryvaracode.Common.{
  ℕ, ◌≡◌, refl, String, Bool, true, false, none, some, [], arith, ◌==◌, eq_iff, if◌then◌else◌, map,
  ◌&&◌, Option-cases, Bool-cases, inl, inr, ◌⊎◌,
}
use kryvaracode.Common.Dict.{Dict, lookup-insert}
use kryvaracode.Forge.Registry.{ToolRegistry, register_tool, get_tool}
use kryvaracode.Forge.Manager.{
  Spec, Argument, argument_of, type_of, generate_test_cases, Ran, Ran.raises, Ran.returned,
  Verified, Verified.crashed, Verified.finished, Synthesis, Synthesis.no_code, Synthesis.code_of,
  outcome, joined, verify, verify_from, definition_of, register_verified, forge_named,
  forge_capability,
}

-- A run that the verifier takes for a success: no exception, and no error with a text.
abbrev pub is_clean : Ran → Bool
is_clean (raises e) = false
is_clean (returned result none) = true
is_clean (returned result (some e)) = e == ""

abbrev pub test_args : Spec → Dict Argument
test_args spec = map (λ p. (p.0, argument_of (type_of p.1))) spec.parameters

Synthesis-cases :
    (s : Synthesis) → ((e : String) × (s ≡ no_code e)) ⊎ ((code : String) × (s ≡ code_of code))
Synthesis-cases (no_code e) = inl (e, refl)
Synthesis-cases (code_of code) = inr (code, refl)

module _ (execute : String → Dict Argument → Ran) (synthesize : Spec → Synthesis) where
  -- The one run that decides: the synthesized code on the made-up arguments.
  abbrev pub goes_live : Spec → Bool
  goes_live spec = elim spec.name [
    | none ↦ false
    | some name ↦ if name == "" then false else (elim (synthesize spec) [
      | no_code e ↦ false
      | code_of code ↦ is_clean (execute code (test_args spec))
    ])
  ]

  abbrev pub named_live : String → Spec → Bool
  named_live name spec = elim spec.name [ none ↦ false | some n ↦ n == name ]

  abbrev is_pass : Verified → Bool
  is_pass (crashed e) = false
  is_pass (finished ok lines) = ok

  -- What the verifier makes of the run of its one test.
  abbrev verified_of : Ran → Verified
  verified_of (raises e) = crashed e
  verified_of (returned result error) =
      joined (outcome 1 (record { args = []; expected = none }) result error) (finished true [])

  is_pass-verified_of : (ran : Ran) → is_pass (verified_of ran) ≡ is_clean ran
  is_pass-verified_of (raises e) = refl
  is_pass-verified_of (returned result none) = refl
  is_pass-verified_of (returned result (some e)) = ground arith

  verify-generate_test_cases :
      (code : String) (spec : Spec)
      → is_pass (verify execute code (generate_test_cases spec))
        ≡ is_clean (execute code (test_args spec))
  unfolding verify verify_from generate_test_cases
  verify-generate_test_cases code spec = is_pass-verified_of (execute code (test_args spec))

  register_verified-registers :
      (now : ℕ) (name id : String) (spec : Spec) (v : Verified) (r : ToolRegistry)
      → let after = register_verified execute synthesize now name spec v r in
        (after.1.0 ≡ is_pass v)
        × (get_tool id after.0 ≡ (
            if is_pass v
            then (if name == id
                then some (definition_of execute synthesize now name spec)
                else get_tool id r)
            else get_tool id r))
  unfolding register_verified register_tool get_tool
  register_verified-registers now name id spec (crashed e) r = (refl, refl)
  register_verified-registers now name id spec (finished true lines) r =
      (refl, lookup-insert name id (definition_of execute synthesize now name spec) r.tools)
  register_verified-registers now name id spec (finished false lines) r = (refl, refl)

  -- Whatever is synthesized and whatever it does in the sandbox: a capability goes live exactly if it has a
  -- name, code was synthesized and one run of it on made-up arguments ended without an exception and
  -- without an error text, whatever its result. Then its name is registered as verified and no other
  -- name changes; otherwise the registry stays as it is.
  pub forge_capability-registers :
      (now : ℕ) (id : String) (spec : Spec) (r : ToolRegistry)
      → let after = forge_capability execute synthesize now spec r in
        (after.1.0 ≡ goes_live spec)
        × (get_tool id after.0 ≡ (
            if goes_live spec && named_live id spec
            then some (definition_of execute synthesize now id spec)
            else get_tool id r))
  unfolding forge_capability forge_named
  forge_capability-registers now id spec r = elim (Option-cases spec.name) [
    | inl nameless ↦ (ground (arith, nameless), ground (arith, nameless))
    | inr (name, given) ↦ elim (Bool-cases (name == "")) [
      | inl empty ↦ (ground (arith, given, empty), ground (arith, given, empty))
      | inr proper ↦ elim (Synthesis-cases (synthesize spec)) [
        | inl (e, failed) ↦
            (ground (arith, given, proper, failed), ground (arith, given, proper, failed))
        | inr (code, made) ↦
            let v = verify execute code (generate_test_cases spec) in
            let (answer, tools) = register_verified-registers now name id spec v r in
            let pass = verify-generate_test_cases code spec in
            let path : forge_capability execute synthesize now spec r
                ≡ register_verified execute synthesize now name spec v r =
              ground (arith, given, proper, made) in
            rw path (
              ground (arith, answer, pass, given, proper, made),
              ground (arith, tools, pass, given, proper, made, eq_iff name id),
            )
      ]
    ]
  ]
