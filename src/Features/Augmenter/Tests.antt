-- ===== src/Features/Augmenter/Tests.antt =====
-- A budget of four characters for augmenter.py.
use kryvaracode.Common.{none, some, List, [], ◌∷◌}
use kryvaracode.Coordination.Topics.{codes}
use kryvaracode.Features.Augmenter.{Document, Document.plain, Document.fields}

abbrev docs : List Document
docs =
    fields (some []) none
    ∷ fields (some []) (some (codes "abc"))
    ∷ plain (codes "defg")
    ∷ plain []
    ∷ []
