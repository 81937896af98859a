-- ===== src/Storage/Txn.antt =====
-- storage/src/txn.c: begin, commit and abort. The handle that the caller owns is passed and
-- returned; the engine's active list holds its id, which `begin_transaction` takes from a 64-bit counter.
pub mod Laws
use codo.Prelude.{
  ℕ, ◌%◌, ◌+◌, ◌-◌, Bool, true, false, Option, none, some, List, [], ◌∷◌, ◌==◌, if◌then◌else◌,
}
use codo.Storage.Wal.{
  u64_mod, Wal, WriteResult, Outcome, ok, error, blocked, wal_commit, wal_abort, write_wal_record,
  flush_wal_buffer,
}

pub data TxnState : Type 0 where
  active committed aborted : TxnState

-- `struct transaction`, without its clock times and row counters.
pub record Transaction : Type 0 where
  pub txn_id : ℕ
  pub state : TxnState
  pub start_lsn : ℕ
  pub commit_lsn : ℕ

-- The part of `storage_engine_t` that transactions use.
pub record Engine : Type 0 where
  pub active_transactions : List ℕ
  pub next_txn_id : ℕ
  pub wal : Wal
  pub enable_wal : Bool
  pub transactions_committed : ℕ
  pub transactions_aborted : ℕ

-- `allocated` is whether malloc returned a block.
unfoldable pub begin_transaction : Bool → Engine → Engine × Option Transaction
begin_transaction allocated e =
    if allocated
    then (
      record e {
        active_transactions = e.next_txn_id ∷ e.active_transactions;
        next_txn_id = (e.next_txn_id + 1) % u64_mod;
      },
      some (record {
        txn_id = e.next_txn_id;
        state = active;
        start_lsn = e.wal.next_lsn;
        commit_lsn = 0;
      }),
    )
    else (e, none)

-- `unlink_transaction`: the first node of the list that is the transaction.
unfoldable pub unlink_transaction : ℕ → List ℕ → List ℕ
unlink_transaction id [] = []
unlink_transaction id (t ∷ ts) = if t == id then ts else t ∷ unlink_transaction id ts

-- Where a call of wal.c returns, its result is not looked at.
abbrev pub ignoring_result : Outcome → Option (Wal × List WriteResult)
ignoring_result (ok wal results) = some (wal, results)
ignoring_result (error wal results) = some (wal, results)
ignoring_result (blocked wal) = none

abbrev pub and_then :
    Option (Wal × List WriteResult)
    → (Wal → List WriteResult → Option (Wal × List WriteResult))
    → Option (Wal × List WriteResult)
and_then none f = none
and_then (some (wal, results)) f = f wal results

-- How a call ends: the engine, the handle, and whether 0 is returned.
pub record Ended : Type 0 where
  pub engine : Engine
  pub txn : Transaction
  pub success : Bool

module _ (checksum : List ℕ → ℕ) where
  -- The log writes of a commit: the record, and then the flush.
  unfoldable pub log_commit :
      Engine → Transaction → List WriteResult → Option (Wal × List WriteResult)
  log_commit e txn results =
      if e.enable_wal
      then and_then
          (ignoring_result (write_wal_record checksum e.wal txn.txn_id wal_commit 0 [] results))
          (λ wal rest. ignoring_result (flush_wal_buffer wal rest))
      else some (e.wal, results)

  unfoldable pub log_abort :
      Engine → Transaction → List WriteResult → Option (Wal × List WriteResult)
  log_abort e txn results =
      if e.enable_wal
      then ignoring_result (write_wal_record checksum e.wal txn.txn_id wal_abort 0 [] results)
      else some (e.wal, results)

  -- `none`: the call has not returned from write(2).
  unfoldable pub commit_transaction : Engine → Transaction → List WriteResult → Option Ended
  commit_transaction e txn results = elim txn.state [
    | active ↦ elim (log_commit e txn results) [
      | none ↦ none
      | some (wal, rest) ↦ some (record {
        engine = record e {
          wal = wal;
          active_transactions = unlink_transaction txn.txn_id e.active_transactions;
          transactions_committed = (e.transactions_committed + 1) % u64_mod;
        };
        txn = record txn {
          state = committed;
          commit_lsn = (wal.next_lsn + (u64_mod - 1)) % u64_mod;
        };
        success = true;
      })
    ]
    | _ ↦ some (record { engine = e; txn = txn; success = false })
  ]

  unfoldable pub abort_transaction : Engine → Transaction → List WriteResult → Option Ended
  abort_transaction e txn results = elim txn.state [
    | active ↦ elim (log_abort e txn results) [
      | none ↦ none
      | some (wal, rest) ↦ some (record {
        engine = record e {
          wal = wal;
          active_transactions = unlink_transaction txn.txn_id e.active_transactions;
          transactions_aborted = (e.transactions_aborted + 1) % u64_mod;
        };
        txn = record txn { state = aborted };
        success = true;
      })
    ]
    | _ ↦ some (record { engine = e; txn = txn; success = false })
  ]
