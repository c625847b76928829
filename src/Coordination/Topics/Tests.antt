-- ===== src/Coordination/Topics/Tests.antt =====
-- The examples of the docstring of `_topic_matches`, and inputs that meet the theorems' conditions.
use kryvaracode.Common.{◌≡◌, refl, true, false}
use kryvaracode.Coordination.Topics.{codes, topic_matches}

docstring :
    (topic_matches (codes "agent.sovereign") (codes "*") ≡ true)
    × (topic_matches (codes "agent.sovereign") (codes "agent.*") ≡ true)
    × (topic_matches (codes "agent.sovereign.task") (codes "agent.*") ≡ false)
    × (topic_matches (codes "agent.sovereign") (codes "agent.**") ≡ true)
    × (topic_matches (codes "agent.sovereign.task") (codes "agent.**") ≡ true)
    × (topic_matches (codes "agents.other") (codes "agent.**") ≡ true)
    × (topic_matches (codes "agent") (codes "agent.*") ≡ false)
unfolding topic_matches
docstring = (refl, refl, refl, refl, refl, refl, refl)
