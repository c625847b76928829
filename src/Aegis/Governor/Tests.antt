-- ===== src/Aegis/Governor/Tests.antt =====
-- A session of three costs for governor.py.
use kryvaracode.Common.{ℕ, List, [], ◌∷◌}

abbrev costs : List ℕ
costs = 300 ∷ 400 ∷ 400 ∷ []
