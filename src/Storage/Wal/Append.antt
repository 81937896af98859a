-- ===== src/Storage/Wal/Append.antt =====
-- What `write_wal_record` of storage/src/wal.c does to the log, and what a retry after a failed
-- flush does.
use codo.Prelude.{
  ℕ, zero, suc, ◌+◌, ◌-◌, ◌/◌, ◌%◌, ◌≤◌, ◌<◌, ◌≡◌, refl, ◌∙◌, ap, sym, subst, Bool-cases, inl, inr,
  List, [], ◌∷◌, ◌++◌, ltb, arith, length, take, replicate, length-append, length-replicate,
  length-take_of_le, take-append_self, append_nil,
}
use mathlib.Core.List.{append_assoc}
use codo.Storage.Wal.{
  u64_mod, Wal, WalRecordType, WriteResult, wrote, failed, Outcome, ok, error, blocked,
  wal_buffer_size, record_head_size, round_up_8, little_endian, record_head, record_bytes,
  put_record, write_wal_record, write_all, reset, flush_wal_buffer, and_put,
}
use codo.Storage.Wal.Flush.{grown, Flushes, drained-Flushes}

-- The buffer never overflows, and every record starts at a multiple of 8.
pub record IsValid (wal : Wal) : Type 0 where
  pub bounded : length wal.buffer ≤ wal_buffer_size
  pub aligned : length wal.buffer % 8 ≡ 0

length-little_endian : (n x : ℕ) → length (little_endian n x) ≡ n
unfolding little_endian
length-little_endian zero x = refl
length-little_endian (suc n) x = ap suc (length-little_endian n (x / 256))

module _ (checksum : List ℕ → ℕ) (txn_id : ℕ) (type : WalRecordType) (page_id : ℕ)
    (payload : List ℕ) where
  length-record_head :
      (lsn crc : ℕ)
      → length (record_head checksum lsn txn_id type page_id (length payload) crc)
        ≡ record_head_size
  unfolding record_head little_endian
  length-record_head lsn crc = refl

  abbrev size : ℕ
  size = round_up_8 (record_head_size + length payload)

  -- A record takes its head and payload, rounded up to a multiple of 8.
  pub length-record_bytes :
      (lsn : ℕ) → length (record_bytes checksum lsn txn_id type page_id payload) ≡ size
  unfolding record_bytes
  length-record_bytes lsn =
      let crc =
        checksum (record_head checksum lsn txn_id type page_id (length payload) 0 ++ payload) in
      let head = record_head checksum lsn txn_id type page_id (length payload) crc in
      let n = size - (record_head_size + length payload) in
      omega (
        arith,
        length-append head (payload ++ replicate n 0),
        length-append payload (replicate n 0),
        length-replicate {A = ℕ} n 0,
        length-record_head lsn crc,
      )

  -- How an append ends: with the record behind the log and one LSN used, or with the buffer, the
  -- LSN and the counter as they were and at most a prefix of the buffer in the file.
  abbrev pub Appends : Wal → Outcome → Type 0
  Appends wal (ok wal' results) =
      (wal'.file ++ wal'.buffer
        ≡ (wal.file ++ wal.buffer)
          ++ record_bytes checksum wal.next_lsn txn_id type page_id payload)
      × (wal'.next_lsn ≡ (wal.next_lsn + 1) % u64_mod)
      × (wal'.records_written ≡ (wal.records_written + 1) % u64_mod)
      × IsValid wal'
  Appends wal (error wal' results) = (a b : List ℕ) × (wal.buffer ≡ a ++ b) × (wal' ≡ grown wal a)
  Appends wal (blocked wal') = (a b : List ℕ) × (wal.buffer ≡ a ++ b) × (wal' ≡ grown wal a)

  module _ (wal : Wal) (v : IsValid wal) where
    record_of : List ℕ
    record_of = record_bytes checksum wal.next_lsn txn_id type page_id payload

    grown_none : wal ≡ grown wal []
    grown_none = ap (λ f. record wal { file = f }) (sym (append_nil wal.file))

    put_here :
        (results : List WriteResult)
        → length wal.buffer + size ≤ wal_buffer_size
        → Appends wal (ok (put_record checksum wal txn_id type page_id payload) results)
    unfolding put_record
    put_here results room = (
      sym (append_assoc wal.file wal.buffer _),
      refl,
      refl,
      record {
        bounded = omega (
          arith,
          length-append wal.buffer (record_bytes checksum wal.next_lsn txn_id type page_id payload),
          length-record_bytes wal.next_lsn,
        );
        aligned = omega (
          arith,
          length-append wal.buffer (record_bytes checksum wal.next_lsn txn_id type page_id payload),
          length-record_bytes wal.next_lsn,
          v.aligned,
        );
      },
    )

    abbrev emptied : Wal
    emptied = record wal { file = wal.file ++ wal.buffer; buffer = [] }

    put_emptied :
        (results : List WriteResult)
        → size ≤ wal_buffer_size
        → Appends wal (ok (put_record checksum emptied txn_id type page_id payload) results)
    unfolding put_record
    put_emptied results room = (
      refl,
      refl,
      refl,
      record {
        bounded = omega (arith, length-record_bytes wal.next_lsn);
        aligned = omega (arith, length-record_bytes wal.next_lsn);
      },
    )

    put_after :
        (o : Outcome)
        → size ≤ wal_buffer_size
        → Flushes wal o
        → Appends wal (and_put checksum o txn_id type page_id payload)
    put_after (ok wal' results) room e =
        subst (λ w. Appends wal (ok (put_record checksum w txn_id type page_id payload) results))
          (sym e) (put_emptied results room)
    put_after (error wal' results) room e = e
    put_after (blocked wal') room e = e

    -- Appending to a log whose buffer is within its bounds and aligned: on success the log, that is
    -- the file and then the buffer, has grown by exactly the new record, with the next LSN; the
    -- buffer stays within its bounds and aligned. On failure the buffer is as it was.
    pub write_wal_record-Appends :
        (results : List WriteResult)
        → Appends wal (write_wal_record checksum wal txn_id type page_id payload results)
    unfolding write_wal_record
    write_wal_record-Appends results = elim (Bool-cases (ltb wal_buffer_size size)) [
      | inl large ↦ rw large ([], wal.buffer, refl, grown_none)
      | inr fits ↦ rw fits (elim (Bool-cases (ltb wal_buffer_size (length wal.buffer + size))) [
        | inl full ↦ rw full (
            put_after (reset (write_all wal 0 results)) (ground arith)
              (drained-Flushes wal results))
        | inr room ↦ rw room (put_here results (ground arith))
      ])
    ]

-- After a flush that failed half way, the next flush writes the bytes that were already written a
-- second time: the file holds that prefix of the buffer, and then the whole buffer.
pub retry_duplicates :
    (wal : Wal) (n : ℕ)
    → 0 < n
    → n < length wal.buffer
    → (half : Wal) × (flush_wal_buffer wal (wrote n ∷ failed ∷ []) ≡ error half [])
      × (flush_wal_buffer half (wrote (length wal.buffer) ∷ [])
          ≡ ok
              (record wal { file = (wal.file ++ take n wal.buffer) ++ wal.buffer; buffer = [] })
              [])
unfolding flush_wal_buffer write_all reset
retry_duplicates wal n pos short =
    let whole : take (length wal.buffer) wal.buffer ≡ wal.buffer =
      ap (take (length wal.buffer)) (sym (append_nil wal.buffer))
      ∙ take-append_self wal.buffer [] (length wal.buffer) refl in
    (grown wal (take n wal.buffer), ground (arith, length-take_of_le n wal.buffer), ground arith)
