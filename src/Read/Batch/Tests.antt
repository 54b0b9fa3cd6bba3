-- ===== src/Read/Batch/Tests.antt =====
-- Headers, decompression and decoding on small batches.
use kaas_lib.Prelude.{
  ℕ, zero, suc, ◌+◌, ◌≡◌, sym, ap, ◌≢◌, some, List, [], ◌∷◌, ◌++◌, length, arith,
}
use kaas_lib.Prelude.Int.{pos}
use kaas_lib.Conn.Sanitize.{Text}
use kaas_lib.Meta.Retry.Reask.{Result, ok, err}
use kaas_lib.Read.Record.{Bytes}
use kaas_lib.Read.Header.{Compression, uncompressed, snappy}
use kaas_lib.Read.Decompress.{Codecs, SnappyKeeps, Within, bounded, bounded-Within}
use kaas_lib.Read.Batch.{
  AbortedTransaction, committed_only, DecodeOptions, DecodedPartition, nothing_decoded, Decoder,
  decode_partition,
}
use kaas_lib.Read.Batch.Walk.{decode_partition-ends}
use kaas_lib.Read.Batch.Hiding.{shown_aborted}
use kaas_lib.Read.Batch.Reference.{plain_walk, decode_partition_lem}

abbrev zeros : ℕ → Bytes
zeros zero = []
zeros (suc n) = 0 ∷ zeros n

-- A batch of one producer at an offset with the given attributes and no bytes of records.
abbrev batch : ℕ → ℕ → ℕ → Bytes
batch offset attributes producer =
    zeros 7
    ++ (offset ∷ [])
    ++ zeros 3
    ++ (49 ∷ [])
    ++ zeros 4
    ++ (2 ∷ [])
    ++ zeros 4
    ++ (0 ∷ attributes ∷ [])
    ++ zeros 20
    ++ zeros 7
    ++ (producer ∷ [])
    ++ zeros 10

-- An aborted batch, its marker, and a batch of the same producer after it.
abbrev log : Bytes
log = batch 3 16 7 ++ batch 4 48 7 ++ batch 5 16 7

abbrev aborted : List AbortedTransaction
aborted = record { producer_id = pos 7; first_offset = pos 3 } ∷ []

abbrev options : DecodeOptions
options = record { max_decompressed_bytes = 1000; visibility = committed_only }

abbrev codecs : Codecs
codecs = record {
  take_to_end = λ _ n input. ok input;
  framed = λ input. ok input;
  decompress_len = λ input. ok 2;
  decompress = λ input buffer. ok buffer;
  refused = [];
}

abbrev decoder : Decoder
decoder = record { codecs = codecs; decode = λ _ _. ok []; too_many = λ _ _. [] }

abbrev content : Result Text Bytes → Bytes
content (ok out) = out
content (err e) = []

codecs-SnappyKeeps : SnappyKeeps codecs
codecs-SnappyKeeps = record {
  framed_ratio = λ input out e.
      let same : length input ≡ length out = ap (λ r. length (content r)) e in omega arith;
  buffer_len = λ input buffer out e. sym (ap (λ r. length (content r)) e);
}

abbrev is_snappy : Compression → ℕ
is_snappy snappy = 1
is_snappy _ = 0

snappy-ne-uncompressed : snappy ≢ uncompressed
snappy-ne-uncompressed e = let n = ap is_snappy e in absurd (omega arith)

bounded-Within_example : Within 100 (bounded codecs (1 ∷ 2 ∷ []) snappy 100)
bounded-Within_example =
    bounded-Within codecs codecs-SnappyKeeps 100 (1 ∷ 2 ∷ []) snappy snappy-ne-uncompressed

decode_partition-ends_example :
    (out : DecodedPartition) × (decode_partition decoder options "orders" (pos 0) log aborted
      ≡ some out)
decode_partition-ends_example = decode_partition-ends decoder options "orders" (pos 0) log aborted

decode_partition_lem_example :
    decode_partition decoder options "orders" (pos 0) log aborted
    ≡ plain_walk decoder options "orders"
        (pos 0)
        (shown_aborted committed_only aborted)
        (length log + 1)
        log
        []
        nothing_decoded
decode_partition_lem_example = decode_partition_lem decoder options "orders" (pos 0) log aborted
