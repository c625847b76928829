-- ===== src/Features.antt =====
-- src/features: the split of documents and the retrieval of context for prompts.
pub mod Augmenter
pub mod Chunker
