-- ===== src/Storage/Wal.antt =====
-- storage/src/wal.c: the log buffer, its flush loop, and the records appended to it. `buffer` is
-- the first `wal_buffer_pos` bytes of the buffer; `file` is what write(2) has taken so far.
pub mod Flush
pub mod Append
use codo.Prelude.{
  ℕ, zero, suc, ◌+◌, ◌-◌, ◌*◌, ◌/◌, ◌%◌, Bool, true, false, List, [], ◌∷◌, ◌++◌, ltb, leb, ◌==◌,
  if◌then◌else◌, length, take, drop, replicate,
}

abbrev pub wal_buffer_size : ℕ
wal_buffer_size = 1048576

-- `sizeof(wal_record_t)`: two 64-bit and four 32-bit fields.
abbrev pub record_head_size : ℕ
record_head_size = 32

pub data WalRecordType : Type 0 where
  wal_insert wal_update wal_delete wal_commit wal_abort wal_checkout : WalRecordType

abbrev pub type_code : WalRecordType → ℕ
type_code wal_insert = 1
type_code wal_update = 2
type_code wal_delete = 3
type_code wal_commit = 4
type_code wal_abort = 5
type_code wal_checkout = 6

abbrev pub u64_mod : ℕ
u64_mod = 18446744073709551616

pub record Wal : Type 0 where
  pub buffer : List ℕ
  pub file : List ℕ
  pub next_lsn : ℕ
  pub records_written : ℕ

-- What one call of write(2) returns: a count, EINTR, or another error. A count of 0 is an error too.
pub data WriteResult : Type 0 where
  wrote : ℕ → WriteResult
  interrupted : WriteResult
  failed : WriteResult

-- How a call of this file ends, with the calls of write(2) that it did not make: 0, -1, or still
-- inside write(2) when the given results are used up.
pub data Outcome : Type 0 where
  ok : Wal → List WriteResult → Outcome
  error : Wal → List WriteResult → Outcome
  blocked : Wal → Outcome

-- The write loop, from `total_written` on; `wrote n` takes at most the bytes offered.
unfoldable pub write_all : Wal → ℕ → List WriteResult → Outcome
write_all wal total_written [] =
    if ltb total_written (length wal.buffer) then blocked wal else ok wal []
write_all wal total_written (result ∷ results) = elim (ltb total_written (length wal.buffer)) [
  | false ↦ ok wal (result ∷ results)
  | true ↦ elim result [
    | interrupted ↦ write_all wal total_written results
    | failed ↦ error wal results
    | wrote n ↦ elim (n == 0) [
      | true ↦ error wal results
      | false ↦
          write_all (record wal { file = wal.file ++ take n (drop total_written wal.buffer) })
            (total_written + length (take n (drop total_written wal.buffer))) results
    ]
  ]
]

-- After the loop the buffer is empty; fsync adds nothing to the model.
unfoldable pub reset : Outcome → Outcome
reset (ok wal results) = ok (record wal { buffer = [] }) results
reset (error wal results) = error wal results
reset (blocked wal) = blocked wal

unfoldable pub flush_wal_buffer : Wal → List WriteResult → Outcome
unfolding reset
flush_wal_buffer wal results =
    if ltb 0 (length wal.buffer) then reset (write_all wal 0 results) else ok wal results

-- `n` bytes of a number, the lowest first.
unfoldable pub little_endian : ℕ → ℕ → List ℕ
little_endian zero x = []
little_endian (suc n) x = x % 256 ∷ little_endian n (x / 256)

-- (content_size + 7u) & ~(size_t)7u
abbrev pub round_up_8 : ℕ → ℕ
round_up_8 n = (n + 7) / 8 * 8

module _ (checksum : List ℕ → ℕ) where
  unfoldable pub record_head : ℕ → ℕ → WalRecordType → ℕ → ℕ → ℕ → List ℕ
  record_head lsn txn_id type page_id data_length crc =
      little_endian 8 lsn
      ++ (little_endian 8 txn_id
          ++ (little_endian 4 (type_code type)
              ++ (little_endian 4 page_id ++ (little_endian 4 data_length ++ little_endian 4 crc))))

  -- The record with its padding. The checksum covers head and payload, with its own field zero.
  unfoldable pub record_bytes : ℕ → ℕ → WalRecordType → ℕ → List ℕ → List ℕ
  record_bytes lsn txn_id type page_id payload =
      let crc = checksum (record_head lsn txn_id type page_id (length payload) 0 ++ payload) in
      record_head lsn txn_id type page_id (length payload) crc
      ++ (payload
          ++ replicate
              (round_up_8 (record_head_size + length payload) - (record_head_size + length payload))
              0)

  -- The second half of `write_wal_record`, with room for the record in the buffer.
  unfoldable pub put_record : Wal → ℕ → WalRecordType → ℕ → List ℕ → Wal
  put_record wal txn_id type page_id payload = record wal {
    buffer = wal.buffer ++ record_bytes wal.next_lsn txn_id type page_id payload;
    next_lsn = (wal.next_lsn + 1) % u64_mod;
    records_written = (wal.records_written + 1) % u64_mod;
  }

  abbrev pub and_put : Outcome → ℕ → WalRecordType → ℕ → List ℕ → Outcome
  and_put (ok wal results) txn_id type page_id payload =
      ok (put_record wal txn_id type page_id payload) results
  and_put (error wal results) txn_id type page_id payload = error wal results
  and_put (blocked wal) txn_id type page_id payload = blocked wal

  unfoldable pub write_wal_record :
      Wal → ℕ → WalRecordType → ℕ → List ℕ → List WriteResult → Outcome
  unfolding reset put_record
  write_wal_record wal txn_id type page_id payload results =
      let record_size = round_up_8 (record_head_size + length payload) in
      if ltb wal_buffer_size record_size
      then error wal results
      else (if ltb wal_buffer_size (length wal.buffer + record_size)
          then and_put (reset (write_all wal 0 results)) txn_id type page_id payload
          else ok (put_record wal txn_id type page_id payload) results)
