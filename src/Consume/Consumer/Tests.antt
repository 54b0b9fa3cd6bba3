-- ===== src/Consume/Consumer/Tests.antt =====
-- A consumer of two partitions.
use kaas_lib.Prelude.{false, none, [], ◌∷◌}
use kaas_lib.Prelude.Int.{ℤ, pos}
use kaas_lib.Prelude.Text.{TopicPartition}
use kaas_lib.Meta.Retry.Reask.{ok}
use kaas_lib.Read.Record.{Record, creation}
use kaas_lib.Read.Batch.{Decoder, default_options}
use kaas_lib.Consume.Consumer.{Consumer, Fetched, starting_at, absorb_all}
use kaas_lib.Consume.Consumer.Deliver.{Delivers}
use kaas_lib.Consume.Consumer.Fetches.{absorb_all-Delivers}
use kaas_lib.Consume.Consumer.Reassign.{reassign, IsReassigned, reassign-IsReassigned}

abbrev orders : ℤ → TopicPartition
orders partition = record { topic = "orders"; partition = partition }

abbrev record_at : ℤ → Record
record_at offset = record {
  topic = "orders";
  partition = pos 0;
  offset = offset;
  timestamp = pos 0;
  timestamp_type = creation;
  key = none;
  value = none;
  headers = [];
  producer_id = none;
  transactional = false;
  leader_epoch = none;
}

abbrev consumer : Consumer
consumer = record {
  assignment = (orders (pos 0), starting_at (pos 5)) ∷ (orders (pos 1), starting_at (pos 9)) ∷ [];
  buffered = record_at (pos 4) ∷ [];
}

abbrev decoder : Decoder
decoder = record {
  codecs = record {
    take_to_end = λ _ n input. ok input;
    framed = λ input. ok input;
    decompress_len = λ input. ok 0;
    decompress = λ input buffer. ok buffer;
    refused = [];
  };
  decode = λ _ _. ok [];
  too_many = λ _ _. [];
}

abbrev answer : ℤ → Fetched
answer partition = record {
  key = orders partition;
  error = none;
  high_watermark = pos 20;
  records = 1 ∷ 2 ∷ 3 ∷ [];
  aborted = [];
}

absorb_all-Delivers_example :
    Delivers
      (orders (pos 0))
      consumer
      (absorb_all decoder default_options (answer (pos 0) ∷ answer (pos 1) ∷ []) consumer)
absorb_all-Delivers_example =
    absorb_all-Delivers decoder default_options (orders (pos 0))
      (answer (pos 0) ∷ answer (pos 1) ∷ []) consumer

reassign-IsReassigned_example :
    IsReassigned
      (λ _. ok ((orders (pos 2), pos 7) ∷ []))
      (orders (pos 1) ∷ orders (pos 2) ∷ [])
      consumer
      (reassign
        (λ _. ok ((orders (pos 2), pos 7) ∷ []))
        (orders (pos 1) ∷ orders (pos 2) ∷ [])
        consumer)
reassign-IsReassigned_example =
    reassign-IsReassigned (λ _. ok ((orders (pos 2), pos 7) ∷ []))
      (orders (pos 1) ∷ orders (pos 2) ∷ []) consumer
