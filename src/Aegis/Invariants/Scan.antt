-- ===== src/Aegis/Invariants/Scan.antt =====
-- invariants.py and verifier.py: when code is safe, and texts that no safe code contains.
use kryvaracode.Common.{
  ℕ, ◌≡◌, refl, sym, ◌∙◌, String, Bool, true, false, not, ◌&&◌, ◌||◌, Option, none, some, List, [],
  ◌∷◌, ◌++◌, arith, eqb, if◌then◌else◌, ◌↔◌, All, Bool-cases, inl, inr, keep, length,
}
use kryvaracode.Coordination.Topics.{codes}
use kryvaracode.Aegis.Pattern.{
  Pattern, literal, either, Place, literal_ends, ends, found, search_from, search,
}
use kryvaracode.Aegis.Invariants.{
  SafetyInvariant, recursive_delete, system_file_access, remote_shell, unauthorized_socket,
  ctypes_access, process_termination, forbidden_patterns, is_exempt, violations_of, check_violation,
  judge, verify_code, total_risk,
}

-- The code breaks the rule, and the path does not exempt it.
abbrev pub violates : List ℕ → Option (List ℕ) → SafetyInvariant → Bool
violates code target_path i = search i.pattern code && not (is_exempt i target_path)

violations_of-eq-keep :
    (is : List SafetyInvariant) (code : List ℕ) (target_path : Option (List ℕ))
    → violations_of is code target_path ≡ keep (violates code target_path) is
unfolding violations_of
violations_of-eq-keep [] code target_path = refl
violations_of-eq-keep (i ∷ is) code target_path =
    ground (arith, violations_of-eq-keep is code target_path)

judge_lem :
    (vs : List SafetyInvariant)
    → ((judge vs).is_safe ≡ eqb (length vs) 0)
      × ((judge vs).violations ≡ (if eqb (length vs) 0 then none else some vs))
      × ((judge vs).score ≡ total_risk vs)
judge_lem [] = (refl, refl, refl)
judge_lem (v ∷ vs) = (ground arith, ground arith, ground arith)

none_kept :
    (p : SafetyInvariant → Bool) (is : List SafetyInvariant)
    → (eqb (length (keep p is)) 0 ≡ true) ↔ All (λ i. p i ≡ false) is
none_kept p [] = (λ h. tt, λ h. refl)
none_kept p (i ∷ is) =
    let (there, back) = none_kept p is in
    elim (Bool-cases (p i)) [
      | inl e ↦ rw e (λ h. absurd (ground arith), λ h. absurd (ground arith))
      | inr e ↦ rw e (λ h. (refl, there h), λ h. back h.1)
    ]

-- Code is safe exactly when it violates no rule of the registry, as its path has exemptions; the list
-- that comes with the verdict holds the violated rules in the registry's order, and is missing for
-- safe code; the score is the sum of their risks.
pub verify_code_lem :
    (code : List ℕ) (target_path : Option (List ℕ))
    → (((verify_code code target_path).is_safe ≡ true)
        ↔ All (λ i. violates code target_path i ≡ false) forbidden_patterns)
      × ((verify_code code target_path).violations ≡ (
          if (verify_code code target_path).is_safe
          then none
          else some (keep (violates code target_path) forbidden_patterns)))
      × ((verify_code code target_path).score
          ≡ total_risk (keep (violates code target_path) forbidden_patterns))
unfolding verify_code check_violation
verify_code_lem code target_path =
    let kept = keep (violates code target_path) forbidden_patterns in
    let (safe, listed, scored) = judge_lem kept in
    let (there, back) = none_kept (violates code target_path) forbidden_patterns in
    rw (violations_of-eq-keep forbidden_patterns code target_path)
      ((λ h. there (sym safe ∙ h), λ h. safe ∙ back h), ground (arith, safe, listed), scored)

literal_ends_self :
    (cs post : List ℕ) (previous : Option ℕ) → found (literal_ends cs previous (cs ++ post)) ≡ true
unfolding literal_ends
literal_ends_self [] post previous = refl
literal_ends_self (c ∷ cs) post previous = ground (arith, literal_ends_self cs post (some c))

search_from-literal :
    (pre cs post : List ℕ) (previous : Option ℕ)
    → search_from (literal cs) previous (pre ++ cs ++ post) ≡ true
unfolding search_from ends
search_from-literal (d ∷ pre) cs post previous =
    ground (arith, search_from-literal pre cs post (some d))
search_from-literal [] [] [] previous = ground (arith, literal_ends_self [] [] previous)
search_from-literal [] [] (d ∷ post) previous =
    ground (arith, literal_ends_self [] (d ∷ post) previous)
search_from-literal [] (c ∷ cs) post previous =
    ground (arith, literal_ends_self (c ∷ cs) post previous)

found-append : (ps qs : List Place) → found (ps ++ qs) ≡ (found ps || found qs)
found-append [] qs = refl
found-append (p ∷ ps) qs = refl

search_from-either :
    (a b : Pattern) (previous : Option ℕ) (code : List ℕ)
    → search_from (either a b) previous code
      ≡ (search_from a previous code || search_from b previous code)
unfolding search_from ends
search_from-either a b previous [] =
    let here : Place = record { previous = previous; rest = [] } in
    found-append (ends a here) (ends b here)
search_from-either a b previous (d ∷ code) =
    let here : Place = record { previous = previous; rest = d ∷ code } in
    ground (arith, found-append (ends a here) (ends b here), search_from-either a b (some d) code)

search-either :
    (a b : Pattern) (code : List ℕ) → search (either a b) code ≡ (search a code || search b code)
unfolding search
search-either a b code = search_from-either a b none code

search-literal : (pre post : List ℕ) (cs : List ℕ) → search (literal cs) (pre ++ cs ++ post) ≡ true
unfolding search
search-literal pre post cs = search_from-literal pre cs post none

-- One violated rule is enough to reject code.
verify_code-violates :
    (code : List ℕ) (target_path : Option (List ℕ)) (i : SafetyInvariant)
    → (All (λ j. violates code target_path j ≡ false) forbidden_patterns
        → violates code target_path i ≡ false)
    → search i.pattern code ≡ true
    → is_exempt i target_path ≡ false
    → (verify_code code target_path).is_safe ≡ false
verify_code-violates code target_path i clear hit strict =
    elim (Bool-cases (verify_code code target_path).is_safe) [
      | inl safe ↦
          let unhurt = clear ((verify_code_lem code target_path).0.0 safe) in absurd (ground arith)
      | inr e ↦ e
    ]

never_exempt :
    (i : SafetyInvariant) (target_path : Option (List ℕ))
    → i.allowed_prefixes ≡ none
    → is_exempt i target_path ≡ false
unfolding is_exempt
never_exempt i none h = refl
never_exempt i (some path) h = rw h refl

search-left :
    (pre post cs : List ℕ) (b : Pattern) → search (either (literal cs) b) (pre ++ cs ++ post) ≡ true
search-left pre post cs b =
    ground (arith, search-either (literal cs) b (pre ++ cs ++ post), search-literal pre post cs)

search-right :
    (pre post cs : List ℕ) (a : Pattern) → search (either a (literal cs)) (pre ++ cs ++ post) ≡ true
search-right pre post cs a =
    ground (arith, search-either a (literal cs) (pre ++ cs ++ post), search-literal pre post cs)

search-middle :
    (pre post cs : List ℕ) (a b : Pattern)
    → search (either a (either (literal cs) b)) (pre ++ cs ++ post) ≡ true
search-middle pre post cs a b =
    ground (
      arith,
      search-either a (either (literal cs) b) (pre ++ cs ++ post),
      search-left pre post cs b,
    )

search-last :
    (pre post cs : List ℕ) (a b : Pattern)
    → search (either a (either b (literal cs))) (pre ++ cs ++ post) ≡ true
search-last pre post cs a b =
    ground (
      arith,
      search-either a (either b (literal cs)) (pre ++ cs ++ post),
      search-right pre post cs b,
    )

-- A rule without exemptions, found by its place in the registry.
rejected_by :
    (i : SafetyInvariant) (target_path : Option (List ℕ))
    → ((p : SafetyInvariant → Bool) → All (λ j. p j ≡ false) forbidden_patterns → p i ≡ false)
    → i.allowed_prefixes ≡ none
    → (code : List ℕ) → search i.pattern code ≡ true
    → (verify_code code target_path).is_safe ≡ false
rejected_by i target_path at strict code hit =
    verify_code-violates code target_path i (at (violates code target_path)) hit
      (never_exempt i target_path strict)

-- Texts that code is rejected for wherever they stand.
abbrev pub forbidden_texts : List String
forbidden_texts =
    "C:\\Windows\\" ∷ "/etc/passwd" ∷ "/etc/shadow" ∷ "os.popen(" ∷ "socket.socket("
    ∷ "import ctypes" ∷ "ctypes." ∷ "os._exit(" ∷ "sys.exit(" ∷ []

-- Code that contains one of the forbidden texts, with whatever before and behind it, is rejected for
-- every path; code that contains `shutil.rmtree(` is rejected when no path is given.
pub verify_code-rejects :
    (pre post : List ℕ) (target_path : Option (List ℕ))
    → All
        (λ bad. (verify_code (pre ++ codes bad ++ post) target_path).is_safe ≡ false)
        forbidden_texts
      × ((verify_code (pre ++ codes "shutil.rmtree(" ++ post) none).is_safe ≡ false)
unfolding is_exempt
verify_code-rejects pre post target_path =
    let at : String → List ℕ = λ bad. pre ++ codes bad ++ post in
    let file = rejected_by system_file_access target_path (λ p h. h.1.0) refl in
    let ctypes = rejected_by ctypes_access target_path (λ p h. h.1.1.1.1.0) refl in
    let exit = rejected_by process_termination target_path (λ p h. h.1.1.1.1.1.0) refl in
    (
      (
        file (at "C:\\Windows\\") (search-left pre post (codes "C:\\Windows\\") _),
        (
          file (at "/etc/passwd") (search-middle pre post (codes "/etc/passwd") _ _),
          (
            file (at "/etc/shadow") (search-last pre post (codes "/etc/shadow") _ _),
            (
              rejected_by remote_shell target_path (λ p h. h.1.1.0) refl (at "os.popen(")
                  (search-right pre post (codes "os.popen(") _),
              (
                rejected_by unauthorized_socket target_path (λ p h. h.1.1.1.0) refl
                    (at "socket.socket(") (search-left pre post (codes "socket.socket(") _),
                (
                  ctypes (at "import ctypes") (search-left pre post (codes "import ctypes") _),
                  (
                    ctypes (at "ctypes.") (search-right pre post (codes "ctypes.") _),
                    (
                      exit (at "os._exit(") (search-left pre post (codes "os._exit(") _),
                      (exit (at "sys.exit(") (search-right pre post (codes "sys.exit(") _), tt),
                    ),
                  ),
                ),
              ),
            ),
          ),
        ),
      ),
      verify_code-violates (at "shutil.rmtree(") none recursive_delete (λ h. h.0)
          (search-left pre post (codes "shutil.rmtree(") _) refl,
    )
