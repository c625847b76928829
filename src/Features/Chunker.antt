-- ===== src/Features/Chunker.antt =====
-- src/features/rag/chunker.py: the split of a text into chunks at the ends of sentences, on code points
-- in ASCII.
mod Tests
use kryvaracode.Common.{
  ℕ, zero, suc, ◌-◌, Bool, true, false, ◌||◌, not, Option, none, some, List, [], ◌∷◌, ◌++◌, eqb,
  leb, ltb, if◌then◌else◌, length, drop, keep,
}
use kryvaracode.Common.Int.{ℤ, pos, negsuc}
use kryvaracode.Common.Texts.{is_space, lstrip, rstrip}

pub record Chunker : Type 0 where
  pub chunk_size : ℕ
  pub overlap : ℕ

-- `__init__`; `none` for a ValueError
abbrev pub new_chunker : ℤ → ℤ → Option Chunker
new_chunker (negsuc size) overlap = none
new_chunker (pos size) (negsuc overlap) = none
new_chunker (pos zero) (pos overlap) = none
new_chunker (pos (suc size)) (pos overlap) =
    if leb (suc size) overlap
    then none
    else some (record { chunk_size = suc size; overlap = overlap })

unfoldable pub strip : List ℕ → List ℕ
unfolding lstrip rstrip
strip s = lstrip (rstrip s)

abbrev pub is_empty : List ℕ → Bool
is_empty [] = true
is_empty (c ∷ cs) = false

-- `not s.strip()`
unfoldable pub is_blank : List ℕ → Bool
unfolding strip
is_blank s = is_empty (strip s)

-- Where `_SENTENCE_RE` stands: in a sentence, after its last character, or in the space that it takes.
pub data Place : Type 0 where
  inside ended between : Place

abbrev pub after : ℕ → Place
after c = if eqb c 46 || (eqb c 33 || eqb c 63) then ended else inside

-- A character in front of the first part.
abbrev pub onto : ℕ → List (List ℕ) → List (List ℕ)
onto c [] = (c ∷ []) ∷ []
onto c (part ∷ parts) = (c ∷ part) ∷ parts

-- `_SENTENCE_RE.split`
unfoldable pub split_at_ends : Place → List ℕ → List (List ℕ)
split_at_ends place [] = [] ∷ []
split_at_ends inside (c ∷ cs) = onto c (split_at_ends (after c) cs)
split_at_ends ended (c ∷ cs) =
    let rest = split_at_ends between cs in
    let more = split_at_ends (after c) cs in if is_space c then [] ∷ rest else onto c more
split_at_ends between (c ∷ cs) =
    let rest = split_at_ends between cs in
    let more = split_at_ends (after c) cs in if is_space c then rest else onto c more

unfoldable pub split_sentences : List ℕ → List (List ℕ)
unfolding split_at_ends is_blank
split_sentences text = keep (λ p. not (is_blank p)) (split_at_ends inside text)

-- `s.split()`, with the word that is being read.
unfoldable pub split_words : List ℕ → List ℕ → List (List ℕ)
split_words word [] = if is_empty word then [] else word ∷ []
split_words word (c ∷ cs) =
    let rest = split_words [] cs in
    let longer = split_words (word ++ c ∷ []) cs in
    if is_space c then (if is_empty word then rest else word ∷ rest) else longer

-- `f"{current} {piece}" if current else piece`
abbrev pub joined : List ℕ → List ℕ → List ℕ
joined [] piece = piece
joined (c ∷ cs) piece = (c ∷ cs) ++ 32 ∷ piece

-- `if current.strip(): chunks.append(current.strip())`
unfoldable pub flush : List (List ℕ) → List ℕ → List (List ℕ)
unfolding is_blank strip
flush chunks current = if is_blank current then chunks else chunks ++ strip current ∷ []

-- The text after the first space; `none` if there is no space.
unfoldable pub after_space : List ℕ → Option (List ℕ)
after_space [] = none
after_space (c ∷ cs) = let rest = after_space cs in if eqb c 32 then some cs else rest

-- The chunks and the current one after the loop over the words of a long sentence.
unfoldable pub add_words : ℕ → List (List ℕ) → List (List ℕ) × List ℕ → List (List ℕ) × List ℕ
unfolding flush
add_words size [] (chunks, current) = (chunks, current)
add_words size (word ∷ words) (chunks, current) =
    let kept = flush chunks current in
    add_words size words (
      if leb (length (joined current word)) size
      then (chunks, joined current word)
      else (if ltb size (length word) then (kept ++ word ∷ [], []) else (kept, word)))

unfoldable pub split_long_sentence : ℕ → List ℕ → List (List ℕ)
unfolding split_words add_words flush
split_long_sentence size sentence =
    let (chunks, current) = add_words size (split_words [] sentence) ([], []) in
    flush chunks current

unfoldable pub apply_overlap : ℕ → List ℕ → List ℕ → List ℕ
unfolding after_space
apply_overlap overlap previous next_sentence =
    if eqb overlap 0 || is_empty previous
    then next_sentence
    else let tail = drop (length previous - overlap) previous in
      (elim (after_space tail) [ none ↦ tail | some rest ↦ rest ]) ++ 32 ∷ next_sentence

-- The body of the loop over the sentences.
unfoldable pub add_sentence : Chunker → List ℕ → List (List ℕ) × List ℕ → List (List ℕ) × List ℕ
unfolding is_blank flush split_long_sentence apply_overlap
add_sentence k sentence (chunks, current) =
    if ltb k.chunk_size (length sentence)
    then (
      flush chunks current ++ split_long_sentence k.chunk_size sentence,
      if is_blank current then current else [],
    )
    else (if leb (length (joined current sentence)) k.chunk_size
        then (chunks, joined current sentence)
        else (flush chunks current, apply_overlap k.overlap current sentence))

unfoldable pub add_sentences :
    Chunker → List (List ℕ) → List (List ℕ) × List ℕ → List (List ℕ) × List ℕ
unfolding add_sentence
add_sentences k [] state = state
add_sentences k (sentence ∷ sentences) state =
    add_sentences k sentences (add_sentence k sentence state)

unfoldable pub chunk : Chunker → List ℕ → List (List ℕ)
unfolding is_blank split_sentences add_sentences flush
chunk k text =
    if is_blank text
    then []
    else let (chunks, current) = add_sentences k (split_sentences text) ([], []) in
      flush chunks current
