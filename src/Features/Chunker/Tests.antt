-- ===== src/Features/Chunker/Tests.antt =====
-- Texts for chunker.py: the overlap makes a chunk longer than the limit.
use kryvaracode.Common.{◌≡◌, refl, [], ◌∷◌}
use kryvaracode.Common.Texts.{lstrip, rstrip}
use kryvaracode.Coordination.Topics.{codes}
use kryvaracode.Features.Chunker.{
  Chunker, chunk, strip, is_blank, split_at_ends, split_sentences, split_words, flush, after_space,
  add_words, split_long_sentence, apply_overlap, add_sentence, add_sentences,
}

abbrev ten : Chunker
ten = record { chunk_size = 10; overlap = 4 }

chunks :
    (chunk ten (codes "aa. bb!  cc dd.") ≡ codes "aa. bb!" ∷ codes "bb! cc dd." ∷ [])
    × (chunk ten (codes "aaaa bbbb. cccc dddd.")
        ≡ codes "aaaa bbbb." ∷ codes "bbb. cccc dddd." ∷ [])
    × (chunk ten (codes "one two three fourteencharacters x")
        ≡ codes "one two" ∷ codes "three" ∷ codes "fourteencharacters" ∷ codes "x" ∷ [])
    × (chunk ten (codes "  ") ≡ [])
unfolding chunk strip is_blank split_at_ends split_sentences split_words flush after_space add_words
    split_long_sentence apply_overlap add_sentence add_sentences lstrip rstrip
chunks = (refl, refl, refl, refl)
