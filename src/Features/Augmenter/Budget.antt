-- ===== src/Features/Augmenter/Budget.antt =====
-- augmenter.py: what of the documents reaches the prompt.
use kryvaracode.Common.{none, some, List, [], ◌∷◌, ◌++◌}
use kryvaracode.Coordination.Topics.{codes}
use kryvaracode.Features.Augmenter.{Text, Document, Document.plain, Document.fields}

-- What a document says: a text itself, a dictionary its text unless that is missing or empty, else its
-- content, else nothing.
abbrev pub said : Document → Text
said (plain text) = text
said (fields (some (c ∷ cs)) content) = c ∷ cs
said (fields (some []) (some content)) = content
said (fields none (some content)) = content
said (fields (some []) none) = []
said (fields none none) = []

-- What the documents say, one after the other.
unfoldable pub all_text : List Document → Text
all_text [] = []
all_text (doc ∷ docs) = said doc ++ all_text docs

abbrev pub concat : List Text → Text
concat [] = []
concat (part ∷ parts) = part ++ concat parts

-- The separator between parts, as the prompt shows it: a line of three dashes between empty lines.
abbrev pub dashes : Text
dashes = (10 ∷ 10 ∷ codes "---") ++ 10 ∷ 10 ∷ []

-- Each part with the separator behind it.
abbrev pub separated : List Text → Text
separated [] = []
separated (part ∷ parts) = part ++ (dashes ++ separated parts)

-- The prompt behind the parts that were taken, each followed by the separator, under the instruction.
abbrev pub prompted : List Text → Text → Text
prompted [] prompt = prompt
prompted (part ∷ parts) prompt =
    (codes "Use the following context to answer the question:" ++ 10 ∷ 10 ∷ [])
    ++ (separated (part ∷ parts) ++ prompt)
