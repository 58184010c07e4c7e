-- ===== src/Retrieval/Tests.antt =====
-- A text of seven characters in chunks of four with an overlap of one.
use enterprise_multi_agent_o.Base.{ℕ, ◌<◌, String, ◌≡◌, refl, true, false, some, [], nat_eq, arith}
use enterprise_multi_agent_o.Base.Lists.{length, drop, all, head?}
use enterprise_multi_agent_o.Base.Text.{codes, is_space, strip}
use enterprise_multi_agent_o.Retrieval.Chunking.{Document, SimpleTextChunker, chunk_document}
use enterprise_multi_agent_o.Retrieval.Chunking.Cover.{
  IsShown, is_sized, chunk_document-covers, chunk_document-is_sized,
}

abbrev chunker : SimpleTextChunker
chunker = record { chunk_size = 4; chunk_overlap = 1 }

abbrev document : Document
document = record { id = "d"; content = codes " ab cdef"; metadata = [] }

abbrev number : ℕ → String
number n = "n"

overlap-lt : chunker.chunk_overlap < chunker.chunk_size
overlap-lt = omega arith

letter : head? (drop 5 (strip document.content)) ≡ some 101
unfolding strip nat_eq
letter = refl

letter-ink : is_space 101 ≡ false
unfolding is_space nat_eq
letter-ink = refl

chunk_document-covers_example :
    IsShown (strip document.content) 5 (chunk_document number chunker document)
chunk_document-covers_example =
    chunk_document-covers number chunker overlap-lt document 5 101 letter letter-ink

chunk_document-is_sized_example :
    all (is_sized 4 (length (strip document.content))) (chunk_document number chunker document)
    ≡ true
chunk_document-is_sized_example = chunk_document-is_sized number chunker overlap-lt document
