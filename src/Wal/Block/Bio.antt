-- ===== src/Wal/Block/Bio.antt =====
-- Whole requests to /dev/wal.
use mathlib.Core.Path.{subst}
use kvm_db.Prelude.{
  inl, inr, ltb, ltb→lt, ltb→le, Bool-cases, append-nil, replicate, ◌-◌, ◌^◌, ◌<◌, ℕ, suc, ◌+◌, ◌*◌,
  ◌≤◌, ◌≡◌, refl, ap, sym, ◌∙◌, Bool, true, false, List, [], ◌∷◌, ◌++◌, length, length-append,
  if◌then◌else◌, arith,
}
use kvm_db.Prelude.Word.{u32, u64}
use kvm_db.Prelude.Splice.{splice, length-splice, splice-append}
use kvm_db.Prelude.Slice.{bytes, splice_none}
use kvm_db.Wal.Status.{WalStatus, IsStatus}
use kvm_db.Wal.Block.{
  WalDisk, block_size, block_sectors, fill, copy_to, store, segment, segments, wal_block_submit_bio,
}
use kvm_db.Wal.Block.Pattern.{length-fill}

abbrev pub count : List (List ℕ) → ℕ
count [] = 0
count (b ∷ bs) = suc (count bs)

-- The storage has the disk's size and the status is well-formed.
pub record IsDisk (d : WalDisk) : Type 0 where
  pub status : IsStatus d.status
  pub size : length d.block_data ≡ block_sectors * block_size

copy_inside :
    (offset : ℕ) (buffer storage : List ℕ)
    → offset + length buffer ≤ block_sectors * block_size
    → copy_to offset buffer storage ≡ splice offset buffer storage
unfolding copy_to replicate
copy_inside offset buffer storage h =
    let nothing : offset + length buffer - block_sectors * block_size ≡ 0 = omega arith in
    rw (nothing, append-nil) refl

store_fits :
    (offset : ℕ) (buffer storage : List ℕ)
    → offset + length buffer ≤ block_sectors * block_size
    → store offset buffer storage ≡ splice offset buffer storage
unfolding store
store_fits offset buffer storage h = ground (arith, copy_inside offset buffer storage h)

store_refused :
    (offset : ℕ) (buffer storage : List ℕ)
    → offset + length buffer < 2 ^ 64
    → block_sectors * block_size < offset + length buffer
    → store offset buffer storage ≡ storage
unfolding store
store_refused offset buffer storage below h = ground arith

-- Without a wrap of the sum no byte outside the storage is written.
length-store :
    (offset : ℕ) (buffer storage : List ℕ)
    → offset + length buffer < 2 ^ 64
    → length (store offset buffer storage) ≡ length storage
length-store offset buffer storage below =
    elim (Bool-cases (ltb (block_sectors * block_size) (offset + length buffer))) [
      | inl past ↦ ap length (
          store_refused offset buffer storage below
            (ltb→lt (block_sectors * block_size) (offset + length buffer) past))
      | inr fits ↦
          ap length (
            store_fits offset buffer storage
              (ltb→le (block_sectors * block_size) (offset + length buffer) fits))
          ∙ length-splice offset buffer storage
    ]

segment-IsStatus :
    (write : Bool) (offset : ℕ) (d : WalDisk) (buffer : List ℕ)
    → IsStatus d.status
    → IsStatus (segment write offset d buffer).1.status
unfolding segment
segment-IsStatus true offset d buffer v = ground (arith, v)
segment-IsStatus false offset d buffer v = ground (arith, v)

segment-IsDisk :
    (write : Bool) (offset : ℕ) (d : WalDisk) (buffer : List ℕ)
    → offset + length buffer < 2 ^ 64
    → IsDisk d
    → IsDisk (segment write offset d buffer).1
unfolding segment
segment-IsDisk true offset d buffer below v = record {
  status = segment-IsStatus true offset d buffer v.status;
  size = length-store offset buffer d.block_data below ∙ v.size;
}
segment-IsDisk false offset d buffer below v =
    let filled = fill (length buffer) 0 buffer in
    let same = length-fill (length buffer) 0 buffer in
    record {
      status = segment-IsStatus false offset d buffer v.status;
      size = length-store offset filled d.block_data (omega (arith, same, below)) ∙ v.size;
    }

segments-IsDisk :
    (write : Bool) (offset : ℕ) (d : WalDisk) (buffers : List (List ℕ))
    → offset + length (bytes buffers) < 2 ^ 64
    → IsDisk d
    → IsDisk (segments write offset d buffers).1
unfolding segments
segments-IsDisk write offset d [] below v = v
segments-IsDisk write offset d (b ∷ bs) below v =
    let both = length-append b (bytes bs) in
    let next : u64 (offset + length b) ≡ offset + length b = omega (arith, both, below) in
    segments-IsDisk write (u64 (offset + length b)) (segment write offset d b).1 bs
      (omega (arith, both, below, next))
      (segment-IsDisk write offset d b (omega (arith, both, below)) v)

-- A request whose bytes lie below 2 ^ 64, on the disk or not, writes no byte outside the storage and
-- keeps the status well-formed.
pub submit_bio-IsDisk :
    (d : WalDisk) (write : Bool) (sector : ℕ) (buffers : List (List ℕ))
    → sector * block_size + length (bytes buffers) < 2 ^ 64
    → IsDisk d
    → IsDisk (wal_block_submit_bio d write sector buffers).1
unfolding wal_block_submit_bio
submit_bio-IsDisk d write sector buffers below v =
    segments-IsDisk write _ d buffers (omega (arith, below)) v

segment_data :
    (write : Bool) (offset : ℕ) (d : WalDisk) (buffer : List ℕ)
    → offset + length buffer ≤ block_sectors * block_size
    → let r = segment write offset d buffer in
      (r.1.block_data ≡ splice offset r.0 d.block_data) × (length r.0 ≡ length buffer)
unfolding segment
segment_data true offset d buffer h = (store_fits offset buffer d.block_data h, refl)
segment_data false offset d buffer h =
    let same = length-fill (length buffer) 0 buffer in
    (store_fits offset (fill (length buffer) 0 buffer) d.block_data (omega (arith, same)), same)

segments_data :
    (write : Bool) (offset : ℕ) (d : WalDisk) (buffers : List (List ℕ))
    → offset + length (bytes buffers) ≤ block_sectors * block_size
    → let r = segments write offset d buffers in
      r.1.block_data ≡ splice offset (bytes r.0) d.block_data
unfolding segments
segments_data write offset d [] h = sym (splice_none offset d.block_data)
segments_data write offset d (b ∷ bs) h =
    let both = length-append b (bytes bs) in
    let r = segment write offset d b in
    let (here, len) = segment_data write offset d b (omega (arith, both)) in
    let next : u64 (offset + length b) ≡ offset + length b = omega (arith, both) in
    let later = segments_data write (offset + length b) r.1 bs (omega (arith, both)) in
    let rest = segments write (offset + length b) r.1 bs in
    let step : splice (offset + length b) (bytes rest.0) (splice offset r.0 d.block_data)
        ≡ splice offset (r.0 ++ bytes rest.0) d.block_data =
      subst
        (λ n.
          splice (offset + n) (bytes rest.0) (splice offset r.0 d.block_data)
          ≡ splice offset (r.0 ++ bytes rest.0) d.block_data)
        len (splice-append offset r.0 (bytes rest.0) d.block_data) in
    rw next (later ∙ ap (splice (offset + length b) (bytes rest.0)) here ∙ step)

-- What a request leaves in its buffers: the data of a write, the message's pattern for a read.
unfoldable pub answered : Bool → List (List ℕ) → List (List ℕ)
answered write [] = []
answered write (b ∷ bs) = (if write then b else fill (length b) 0 b) ∷ answered write bs

segments_buffers :
    (write : Bool) (offset : ℕ) (d : WalDisk) (buffers : List (List ℕ))
    → (segments write offset d buffers).0 ≡ answered write buffers
unfolding segments segment answered
segments_buffers write offset d [] = refl
segments_buffers true offset d (b ∷ bs) =
    ap (λ l. b ∷ l) (segments_buffers true (u64 (offset + length b)) (segment true offset d b).1 bs)
segments_buffers false offset d (b ∷ bs) =
    ap (λ l. fill (length b) 0 b ∷ l)
      (segments_buffers false (u64 (offset + length b)) (segment false offset d b).1 bs)

-- A request whose sectors lie on the disk leaves in the storage, from its first byte on, the bytes of
-- all its segments one after the other (for a read too: the answer replaces what was stored), and
-- nothing else of the storage changes. A write leaves its buffers as they are.
pub submit_bio_data :
    (d : WalDisk) (write : Bool) (sector : ℕ) (buffers : List (List ℕ))
    → sector * block_size + length (bytes buffers) ≤ block_sectors * block_size
    → let r = wal_block_submit_bio d write sector buffers in
      (r.0 ≡ answered write buffers)
      × (r.1.block_data
          ≡ splice (sector * block_size) (bytes (answered write buffers)) d.block_data)
unfolding wal_block_submit_bio
submit_bio_data d write sector buffers h =
    let at : u64 (sector * block_size) ≡ sector * block_size = omega arith in
    let same = segments_buffers write (sector * block_size) d buffers in
    rw at (same, rw (← same) (segments_data write (sector * block_size) d buffers h))

-- The status after a request: a segment counts as one read or write.
unfoldable pub counted : Bool → WalStatus → List (List ℕ) → WalStatus
counted true s buffers = record s {
  block_write_count = u32 (s.block_write_count + count buffers);
  total_bytes_written = u32 (s.total_bytes_written + length (bytes buffers));
}
counted false s buffers = record s {
  block_read_count = u32 (s.block_read_count + count buffers);
  total_bytes_read = u32 (s.total_bytes_read + length (bytes buffers));
}

counted_none : (write : Bool) (s : WalStatus) → IsStatus s → s ≡ counted write s []
unfolding counted
counted_none true s v = ground arith
counted_none false s v = ground arith

counted_step :
    (write : Bool) (offset : ℕ) (d : WalDisk) (b : List ℕ) (bs : List (List ℕ))
    → counted write (segment write offset d b).1.status bs ≡ counted write d.status (b ∷ bs)
unfolding counted segment
counted_step true offset d b bs = ground (arith, length-append b (bytes bs))
counted_step false offset d b bs = ground (arith, length-append b (bytes bs))

segments_status :
    (write : Bool) (offset : ℕ) (d : WalDisk) (buffers : List (List ℕ))
    → IsStatus d.status
    → (segments write offset d buffers).1.status ≡ counted write d.status buffers
unfolding segments
segments_status write offset d [] v = counted_none write d.status v
segments_status write offset d (b ∷ bs) v =
    segments_status write (u64 (offset + length b)) (segment write offset d b).1 bs
      (segment-IsStatus write offset d b v)
    ∙ counted_step write offset d b bs

-- A request counts one read or write for every segment and adds the bytes of all of them, modulo
-- 2 ^ 32, also where they lie outside the disk; no other counter changes, nor does the mode.
submit_bio_status :
    (d : WalDisk) (write : Bool) (sector : ℕ) (buffers : List (List ℕ))
    → IsDisk d
    → (wal_block_submit_bio d write sector buffers).1.status ≡ counted write d.status buffers
unfolding wal_block_submit_bio
submit_bio_status d write sector buffers v =
    segments_status write (u64 (sector * block_size)) d buffers v.status
