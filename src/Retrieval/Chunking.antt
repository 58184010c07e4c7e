-- ===== src/Retrieval/Chunking.antt =====
-- retrieval/chunking.py: the chunker with sliding overlap. Texts are lists of code points.
pub mod Windows
pub mod Cover
use enterprise_multi_agent_o.Base.{
  ℕ, zero, suc, ◌+◌, ◌-◌, min, String, ◌<>◌, Bool, true, false, List, [], ◌∷◌, ltb, leb, ◌==◌,
  if◌then◌else◌, nat_eq,
}
use enterprise_multi_agent_o.Base.Lists.{length, take, drop}
use enterprise_multi_agent_o.Base.Text.{strip}
use enterprise_multi_agent_o.Core.Types.{Payload, truthy}
use enterprise_multi_agent_o.Errors.{Exception, other, Result, ok, raises}

-- agents/retrieval.py
pub record Document : Type 0 where
  pub id : String
  pub content : List ℕ
  pub metadata : Payload

-- The metadata of a chunk: the document's, updated with four entries.
pub record ChunkMetadata : Type 0 where
  pub document : Payload
  pub source_doc_id : String
  pub chunk_index : ℕ
  pub start_char : ℕ
  pub end_char : ℕ

pub record DocumentChunk : Type 0 where
  pub id : String
  pub document_id : String
  pub chunk_index : ℕ
  pub content : List ℕ
  pub metadata : ChunkMetadata

pub record SimpleTextChunker : Type 0 where
  pub chunk_size : ℕ
  pub chunk_overlap : ℕ

-- `__init__`. A negative overlap, which it refuses too, is no natural number.
unfoldable pub simple_text_chunker : (chunk_size chunk_overlap : ℕ) → Result SimpleTextChunker
simple_text_chunker chunk_size chunk_overlap =
    if leb chunk_size 0
    then raises (other "chunk_size must be greater than 0")
    else if leb chunk_size chunk_overlap
    then raises (other "chunk_overlap must be strictly less than chunk_size")
    else ok (record { chunk_size = chunk_size; chunk_overlap = chunk_overlap })

-- `str` of a number is a parameter.
module _ (str : ℕ → String) where
  abbrev pub make_chunk :
      Document → (chunk_index start_char end_char : ℕ) → (content : List ℕ) → DocumentChunk
  make_chunk d i start end_ content = record {
    id = d.id <> "_chunk_" <> str i;
    document_id = d.id;
    chunk_index = i;
    content = content;
    metadata = record {
      document = d.metadata;
      source_doc_id = d.id;
      chunk_index = i;
      start_char = start;
      end_char = end_;
    };
  }

  -- The rest of the loop from `start`, on fuel.
  unfoldable pub cut :
      SimpleTextChunker
      → Document
      → (text : List ℕ) → (fuel start chunk_idx : ℕ) → List DocumentChunk
  unfolding strip
  cut c d text zero start i = []
  cut c d text (suc fuel) start i =
      let end_ = min (start + c.chunk_size) (length text) in
      let chunk_text = strip (take (end_ - start) (drop start text)) in
      let next = start + (c.chunk_size - c.chunk_overlap) in
      let rest =
        cut c d text fuel (start + (c.chunk_size - c.chunk_overlap))
          (if truthy chunk_text then i + 1 else i) in
      let after = if end_ == length text then [] else rest in
      if ltb start (length text)
      then if truthy chunk_text then make_chunk d i start end_ chunk_text ∷ after else after
      else []

  unfoldable pub chunk_document : SimpleTextChunker → Document → List DocumentChunk
  unfolding cut strip
  chunk_document c d =
      let text = strip d.content in
      if truthy text
      then if leb (length text) c.chunk_size
        then make_chunk d 0 0 (length text) text ∷ []
        else cut c d text (length text) 0 0
      else []
