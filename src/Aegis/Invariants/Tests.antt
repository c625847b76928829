-- ===== src/Aegis/Invariants/Tests.antt =====
-- Runs of the scan on small programs, for invariants.py and verifier.py.
use kryvaracode.Common.{◌≡◌, refl, true, false, none, some, ◌++◌, ◌↔◌, All, keep, if◌then◌else◌}
use kryvaracode.Coordination.Topics.{codes, starts_with}
use kryvaracode.Aegis.Pattern.{search}
use kryvaracode.Aegis.Invariants.{forbidden_patterns, verify_code, total_risk, is_exempt}
use kryvaracode.Aegis.Invariants.Scan.{
  violates, forbidden_texts, verify_code_lem, verify_code-rejects,
}

-- The tests that the patterns are meant for: a shell delete, a private address, an exempt path.
verdicts :
    ((verify_code (codes "os.system('x; rm  -rf /')") none).is_safe ≡ false)
    × ((verify_code (codes "requests.get('http://172.20.0.1')") none).is_safe ≡ false)
    × ((verify_code (codes "requests.get('http://172.32.0.1')") none).is_safe ≡ true)
    × ((verify_code (codes "requests.get('http://myinternals')") none).is_safe ≡ true)
    × ((verify_code (codes "shutil.rmtree('/tmp/x')") (some (codes "/tmp/x"))).is_safe ≡ true)
    × ((verify_code (codes "print(1)") none).score ≡ 0)
unfolding verify_code search is_exempt starts_with
verdicts = (refl, refl, refl, refl, refl, refl)

verify_code_lem_example :
    (((verify_code (codes "sys.exit(1)") none).is_safe ≡ true)
      ↔ All (λ i. violates (codes "sys.exit(1)") none i ≡ false) forbidden_patterns)
    × ((verify_code (codes "sys.exit(1)") none).violations ≡ (
        if (verify_code (codes "sys.exit(1)") none).is_safe
        then none
        else some (keep (violates (codes "sys.exit(1)") none) forbidden_patterns)))
    × ((verify_code (codes "sys.exit(1)") none).score
        ≡ total_risk (keep (violates (codes "sys.exit(1)") none) forbidden_patterns))
verify_code_lem_example = verify_code_lem (codes "sys.exit(1)") none

verify_code-rejects_example :
    All
      (λ bad. (verify_code (codes "import os\n" ++ codes bad ++ codes ")") none).is_safe ≡ false)
      forbidden_texts
    × ((verify_code (codes "import os\n" ++ codes "shutil.rmtree(" ++ codes ")") none).is_safe
        ≡ false)
verify_code-rejects_example = verify_code-rejects (codes "import os\n") (codes ")") none
