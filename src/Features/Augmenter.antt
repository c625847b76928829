-- ===== src/Features/Augmenter.antt =====
-- src/features/rag/augmenter.py: context documents in front of a prompt. A text is the list of its
-- characters; `max_context_chars` is positive, since the constructor refuses any other.
pub mod Budget
mod Tests
use kryvaracode.Common.{
  ℕ, ◌+◌, ◌-◌, true, false, Option, none, some, List, [], ◌∷◌, ◌++◌, leb, ltb, length, take,
  if◌then◌else◌,
}
use kryvaracode.Coordination.Topics.{codes}

abbrev pub Text : Type 0
Text = List ℕ

-- A document: a text, or a dictionary with its `text` and its `content`.
pub data Document : Type 0 where
  plain : Text → Document
  fields : Option Text → Option Text → Document

-- `a or b`, for an optional text
abbrev pub or_else : Option Text → Text → Text
or_else none b = b
or_else (some []) b = b
or_else (some (c ∷ cs)) b = c ∷ cs

-- A text that is not empty; a dictionary without one is skipped.
abbrev pub usable : Text → Option Text
usable [] = none
usable (c ∷ cs) = some (c ∷ cs)

unfoldable pub text_of : Document → Option Text
text_of (plain text) = some text
text_of (fields text content) = usable (or_else text (or_else content []))

-- `text[:remaining]` if the text is longer
abbrev pub clipped : ℕ → Text → Text
clipped remaining text = if ltb remaining (length text) then take remaining text else text

-- The loop: the parts that are appended from a total on.
unfoldable pub fill : ℕ → ℕ → List Document → List Text
unfolding text_of
fill max_chars total [] = []
fill max_chars total (doc ∷ docs) = elim (text_of doc) [
  | none ↦ fill max_chars total docs
  | some text ↦ elim (leb max_chars total) [
    | true ↦ []
    | false ↦
        clipped (max_chars - total) text
        ∷ fill max_chars (total + length (clipped (max_chars - total) text)) docs
  ]
]

abbrev pub separator : Text
separator = 10 ∷ 10 ∷ 45 ∷ 45 ∷ 45 ∷ 10 ∷ 10 ∷ []

-- `_SEPARATOR.join(parts)`
unfoldable pub join : List Text → Text
join [] = []
join (part ∷ []) = part
join (part ∷ next ∷ parts) = part ++ (separator ++ join (next ∷ parts))

abbrev pub instruction : Text
instruction = codes "Use the following context to answer the question:" ++ 10 ∷ 10 ∷ []

unfoldable pub augmented : List Text → Text → Text
unfolding join
augmented [] prompt = prompt
augmented (part ∷ parts) prompt = instruction ++ (join (part ∷ parts) ++ (separator ++ prompt))

unfoldable pub augment : ℕ → Text → List Document → Text
unfolding fill augmented
augment max_chars prompt docs = augmented (fill max_chars 0 docs) prompt
