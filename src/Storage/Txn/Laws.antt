-- ===== src/Storage/Txn/Laws.antt =====
-- The active list of storage/src/txn.c, and what a commit promises.
use codo.Prelude.{
  ℕ, ◌%◌, ◌+◌, ◌≤◌, ◌<◌, ◌≡◌, ◌≢◌, ◌-◌, refl, ap, ◌∙◌, Bool, true, false, ◌||◌, some, List, [], ◌∷◌,
  arith, ◌==◌, length, length-append, if◌then◌else◌,
}
use codo.Storage.Wal.{
  u64_mod, Wal, WriteResult, failed, wal_buffer_size, wal_commit, write_wal_record,
  flush_wal_buffer, put_record, record_bytes, write_all, reset, ok, error,
}
use codo.Storage.Wal.Append.{length-record_bytes}
use codo.Storage.Txn.{
  TxnState, active, Transaction, Engine, Ended, begin_transaction, unlink_transaction, log_commit,
  commit_transaction, abort_transaction,
}

unfoldable pub member : ℕ → List ℕ → Bool
member id [] = false
member id (t ∷ ts) = t == id || member id ts

-- Every id is below the bound, and none stands twice.
abbrev pub Distinct : ℕ → List ℕ → Type 0
Distinct bound [] = Unit
Distinct bound (t ∷ ts) = (t < bound) × (member t ts ≡ false) × Distinct bound ts

Distinct-mono : (m n : ℕ) (ts : List ℕ) → m ≤ n → Distinct m ts → Distinct n ts
Distinct-mono m n [] h d = tt
Distinct-mono m n (t ∷ ts) h d = (omega arith, d.1, Distinct-mono m n ts h d.2)

Distinct-fresh : (n : ℕ) (ts : List ℕ) → Distinct n ts → member n ts ≡ false
unfolding member
Distinct-fresh n [] d = refl
Distinct-fresh n (t ∷ ts) d = ground (arith, Distinct-fresh n ts d.2)

member-unlink :
    (n id q : ℕ) (ts : List ℕ)
    → Distinct n ts
    → member q (unlink_transaction id ts) ≡ (if id == q then false else member q ts)
unfolding member unlink_transaction
member-unlink n id q [] d = ground arith
member-unlink n id q (t ∷ ts) d = ground (arith, member-unlink n id q ts d.2)

Distinct-unlink : (n id : ℕ) (ts : List ℕ) → Distinct n ts → Distinct n (unlink_transaction id ts)
unfolding unlink_transaction
Distinct-unlink n id [] d = tt
Distinct-unlink n id (t ∷ ts) d =
    ground (arith, Distinct-unlink n id ts d.2, member-unlink n id t ts d.2)

-- While the 64-bit counter of ids has not run out, a new transaction is active, has an id that no
-- active one has, and is the one that is added; the ids stay distinct and below the next one.
pub begin_transaction-Distinct :
    (e : Engine)
    → e.next_txn_id + 1 < u64_mod
    → Distinct e.next_txn_id e.active_transactions
    → let (e', txn) = begin_transaction true e in
      (t : Transaction) × (txn ≡ some t)
      × (t.state ≡ active)
      × (member t.txn_id e.active_transactions ≡ false)
      × ((q : ℕ)
          → member q e'.active_transactions ≡ (t.txn_id == q || member q e.active_transactions))
      × Distinct e'.next_txn_id e'.active_transactions
unfolding begin_transaction member
begin_transaction-Distinct e left d = (
  _,
  refl,
  refl,
  Distinct-fresh e.next_txn_id e.active_transactions d,
  λ q. refl,
  (
    omega arith,
    Distinct-fresh e.next_txn_id e.active_transactions d,
    Distinct-mono e.next_txn_id ((e.next_txn_id + 1) % u64_mod) e.active_transactions (omega arith)
        d,
  ),
)

module _ (checksum : List ℕ → ℕ) (e : Engine) (txn : Transaction) (results : List WriteResult) where
  -- What closing a transaction does to the list: the handle leaves it, nothing else does.
  abbrev pub Closes : Ended → Type 0
  Closes r =
      ((q : ℕ)
        → member q r.engine.active_transactions
          ≡ (if txn.txn_id == q then false else member q e.active_transactions))
      × Distinct r.engine.next_txn_id r.engine.active_transactions
      × (r.txn.state ≢ active)

  closed_at :
      (r : Ended)
      → Distinct e.next_txn_id e.active_transactions
      → r.engine.active_transactions ≡ unlink_transaction txn.txn_id e.active_transactions
      → r.engine.next_txn_id ≡ e.next_txn_id
      → r.txn.state ≢ active
      → Closes r
  closed_at r d list next shut = (
    λ q. ap (member q) list ∙ member-unlink e.next_txn_id txn.txn_id q e.active_transactions d,
    rw (list, next) (Distinct-unlink e.next_txn_id txn.txn_id e.active_transactions d),
    shut,
  )

  -- A commit that returns 0 has taken the handle off the active list and left the others on it, and
  -- the handle is no longer active.
  pub commit_transaction-Closes :
      (r : Ended)
      → Distinct e.next_txn_id e.active_transactions
      → commit_transaction checksum e txn results ≡ some r
      → r.success ≡ true
      → Closes r
  unfolding commit_transaction
  commit_transaction-Closes r d h done = closed_at r d (ground arith) (ground arith) (ground arith)

  -- The same for an abort.
  pub abort_transaction-Closes :
      (r : Ended)
      → Distinct e.next_txn_id e.active_transactions
      → abort_transaction checksum e txn results ≡ some r
      → r.success ≡ true
      → Closes r
  unfolding abort_transaction
  abort_transaction-Closes r d h done = closed_at r d (ground arith) (ground arith) (ground arith)

module _ (checksum : List ℕ → ℕ) (wal : Wal) (txn_id : ℕ) where
  abbrev logged_wal : Wal
  logged_wal = put_record checksum wal txn_id wal_commit 0 []

  commit_record :
      (results : List WriteResult)
      → length wal.buffer + 32 ≤ wal_buffer_size
      → write_wal_record checksum wal txn_id wal_commit 0 [] results ≡ ok logged_wal results
  unfolding write_wal_record
  commit_record results room = ground arith

  failed_flush : flush_wal_buffer logged_wal (failed ∷ []) ≡ error logged_wal []
  unfolding flush_wal_buffer write_all reset put_record
  failed_flush =
      let full : 0 < length (put_record checksum wal txn_id wal_commit 0 []).buffer = omega (
        arith,
        length-append wal.buffer (record_bytes checksum wal.next_lsn txn_id wal_commit 0 []),
        length-record_bytes checksum txn_id wal_commit 0 [] wal.next_lsn,
      ) in
      ground arith

-- With the log enabled and room for the record in the buffer, a commit returns 0 also when write(2)
-- fails: nothing of the transaction has reached the file, and the caller is not told.
pub commit_unlogged :
    (checksum : List ℕ → ℕ) (e : Engine) (txn : Transaction)
    → txn.state ≡ active
    → e.enable_wal ≡ true
    → length e.wal.buffer + 32 ≤ wal_buffer_size
    → (r : Ended) × (commit_transaction checksum e txn (failed ∷ []) ≡ some r)
      × (r.success ≡ true)
      × (r.engine.wal.file ≡ e.wal.file)
unfolding commit_transaction log_commit put_record
commit_unlogged checksum e txn is_active logged room =
    let after = logged_wal checksum e.wal txn.txn_id in
    (
      record {
        engine = record e {
          wal = after;
          active_transactions = unlink_transaction txn.txn_id e.active_transactions;
          transactions_committed = (e.transactions_committed + 1) % u64_mod;
        };
        txn = record txn {
          state = TxnState.committed;
          commit_lsn = (after.next_lsn + (u64_mod - 1)) % u64_mod;
        };
        success = true;
      },
      ground (
        arith,
        commit_record checksum e.wal txn.txn_id (failed ∷ []) room,
        failed_flush checksum e.wal txn.txn_id,
      ),
      refl,
      refl,
    )
