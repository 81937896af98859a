-- ===== src/Tests/Logs.antt =====
-- storage/src/wal.c and storage/src/txn.c at a log with one record's bytes in the buffer.
use codo.Prelude.{
  ℕ, ◌+◌, ◌≤◌, ◌≡◌, refl, true, false, ◌||◌, Option, some, none, List, [], ◌∷◌, ◌++◌, arith, ◌==◌,
  length, take,
}
use codo.Storage.Wal.{
  Wal, WriteResult, wrote, interrupted, failed, ok, error, wal_insert, write_wal_record,
  flush_wal_buffer, record_bytes, record_head, little_endian, write_all,
}
use codo.Storage.Wal.Flush.{
  Flushes, flush_wal_buffer-Flushes, has_returned, attempts, flush_wal_buffer-returns,
}
use codo.Storage.Wal.Append.{IsValid, Appends, write_wal_record-Appends, retry_duplicates}
use codo.Storage.Txn.{
  Transaction, Engine, Ended, active, begin_transaction, commit_transaction, log_commit,
}
use codo.Storage.Txn.Laws.{
  member, Distinct, Closes, begin_transaction-Distinct, commit_transaction-Closes, commit_unlogged,
}

abbrev log : Wal
log = record {
  buffer = 1 ∷ 2 ∷ 3 ∷ 4 ∷ 5 ∷ 6 ∷ 7 ∷ 8 ∷ [];
  file = 9 ∷ [];
  next_lsn = 2;
  records_written = 1;
}

-- A checksum for the examples: the sum of the bytes.
unfoldable sum : List ℕ → ℕ
sum [] = 0
sum (b ∷ bs) = b + sum bs

log-IsValid : IsValid log
log-IsValid = record { bounded = omega arith; aligned = refl }

abbrev bumpy : List WriteResult
bumpy = interrupted ∷ wrote 3 ∷ interrupted ∷ failed ∷ []

flush_wal_buffer-Flushes_example : Flushes log (flush_wal_buffer log bumpy)
flush_wal_buffer-Flushes_example = flush_wal_buffer-Flushes log bumpy

abbrev slow : List WriteResult
slow =
    wrote 1 ∷ interrupted ∷ wrote 1 ∷ wrote 1 ∷ wrote 1 ∷ wrote 1 ∷ wrote 1 ∷ wrote 1 ∷ wrote 1 ∷ []

slow_enough : length log.buffer ≤ attempts slow
unfolding attempts
slow_enough = omega arith

flush_wal_buffer-returns_example : has_returned (flush_wal_buffer log slow) ≡ true
flush_wal_buffer-returns_example = flush_wal_buffer-returns log slow slow_enough

write_wal_record-Appends_example :
    Appends sum 5 wal_insert 3
      (1 ∷ 2 ∷ [])
      log
      (write_wal_record sum log 5 wal_insert 3 (1 ∷ 2 ∷ []) bumpy)
write_wal_record-Appends_example =
    write_wal_record-Appends sum 5 wal_insert 3 (1 ∷ 2 ∷ []) log log-IsValid bumpy

retry_duplicates_example :
    (half : Wal) × (flush_wal_buffer log (wrote 3 ∷ failed ∷ []) ≡ error half [])
    × (flush_wal_buffer half (wrote 8 ∷ [])
        ≡ ok (record log { file = (log.file ++ take 3 log.buffer) ++ log.buffer; buffer = [] }) [])
retry_duplicates_example = retry_duplicates log 3 (omega arith) (omega arith)

abbrev engine : Engine
engine = record {
  active_transactions = 4 ∷ 2 ∷ [];
  next_txn_id = 5;
  wal = log;
  enable_wal = true;
  transactions_committed = 0;
  transactions_aborted = 0;
}

abbrev txn_two : Transaction
txn_two = record { txn_id = 2; state = active; start_lsn = 1; commit_lsn = 0 }

engine-Distinct : Distinct engine.next_txn_id engine.active_transactions
unfolding member
engine-Distinct = (omega arith, refl, (omega arith, refl, tt))

begin_transaction-Distinct_example :
    let (e', txn) = begin_transaction true engine in
    (t : Transaction) × (txn ≡ some t)
    × (t.state ≡ active)
    × (member t.txn_id engine.active_transactions ≡ false)
    × ((q : ℕ)
        → member q e'.active_transactions ≡ (t.txn_id == q || member q engine.active_transactions))
    × Distinct e'.next_txn_id e'.active_transactions
begin_transaction-Distinct_example = begin_transaction-Distinct engine (omega arith) engine-Distinct

commit_unlogged_example :
    (r : Ended) × (commit_transaction sum engine txn_two (failed ∷ []) ≡ some r)
    × (r.success ≡ true)
    × (r.engine.wal.file ≡ log.file)
commit_unlogged_example = commit_unlogged sum engine txn_two refl refl (omega arith)

-- How a call ended that has returned.
abbrev ended_of : Option Ended → Ended
ended_of (some r) = r
ended_of none = record { engine = engine; txn = txn_two; success = false }

commit_done :
    commit_transaction sum engine txn_two (wrote 40 ∷ [])
    ≡ some (ended_of (commit_transaction sum engine txn_two (wrote 40 ∷ [])))
unfolding commit_transaction log_commit write_wal_record flush_wal_buffer record_bytes record_head
    little_endian write_all
commit_done = refl

commit_success : (ended_of (commit_transaction sum engine txn_two (wrote 40 ∷ []))).success ≡ true
unfolding commit_transaction log_commit write_wal_record flush_wal_buffer record_bytes record_head
    little_endian write_all
commit_success = refl

commit_transaction-Closes_example :
    Closes sum engine txn_two
      (wrote 40 ∷ [])
      (ended_of (commit_transaction sum engine txn_two (wrote 40 ∷ [])))
commit_transaction-Closes_example =
    commit_transaction-Closes sum engine txn_two (wrote 40 ∷ [])
      (ended_of (commit_transaction sum engine txn_two (wrote 40 ∷ []))) engine-Distinct commit_done
      commit_success
