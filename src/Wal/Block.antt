-- ===== src/Wal/Block.antt =====
-- The block device /dev/wal of driver/wal_driver_main.c: geometry and `submit_bio`, the latter
-- under the driver's lock, with the virtual storage as a list of bytes.
pub mod Pattern
pub mod Bio
pub mod Legacy
use kvm_db.Prelude.{
  ℕ, zero, suc, ◌+◌, ◌-◌, ◌*◌, ◌/◌, min, Bool, true, false, List, [], ◌∷◌, ◌++◌, replicate, length,
  take, ltb, leb, if◌then◌else◌,
}
use kvm_db.Prelude.Word.{u32, u64, inc32}
use kvm_db.Prelude.Splice.{splice}
use kvm_db.Wal.Status.{WalStatus, response_msg, response_len}

abbrev pub block_size : ℕ
block_size = 512

abbrev pub block_sectors : ℕ
block_sectors = 2048

pub record HdGeometry : Type 0 where
  pub heads : ℕ
  pub sectors : ℕ
  pub cylinders : ℕ
  pub start : ℕ

unfoldable pub wal_block_getgeo : HdGeometry
wal_block_getgeo = record {
  heads = 4;
  sectors = 16;
  cylinders = block_sectors / (4 * 16);
  start = 0;
}

pub record WalDisk : Type 0 where
  pub status : WalStatus
  pub block_data : List ℕ

-- The loop that fills a buffer with the message, on fuel; each round copies at least one byte.
unfoldable pub fill : ℕ → ℕ → List ℕ → List ℕ
unfolding splice
fill zero pos buffer = buffer
fill (suc fuel) pos buffer =
    let chunk_size = min (length buffer - pos) response_len in
    let rest = fill fuel (pos + chunk_size) (splice pos (take chunk_size response_msg) buffer) in
    if ltb pos (length buffer) then rest else buffer

-- `memcpy` to an offset of the storage, which has the disk's size. A copy that reaches past its end
-- overwrites what stands there in memory: those bytes are then kept after those of the storage, so that
-- the list is longer.
unfoldable pub copy_to : ℕ → List ℕ → List ℕ → List ℕ
unfolding splice replicate
copy_to offset buffer storage =
    splice offset buffer
      (storage ++ replicate (offset + length buffer - block_sectors * block_size) 0)

-- The bytes go to the storage where they fit, by a sum of 64 bits.
unfoldable pub store : ℕ → List ℕ → List ℕ → List ℕ
unfolding copy_to
store offset buffer storage =
    if leb (u64 (offset + length buffer)) (block_sectors * block_size)
    then copy_to offset buffer storage
    else storage

-- One segment of a request: the buffer afterwards, and the disk.
unfoldable pub segment : Bool → ℕ → WalDisk → List ℕ → List ℕ × WalDisk
unfolding fill store
segment true offset d buffer =
    let s = d.status in
    (
      buffer,
      record {
        status = record s {
          block_write_count = inc32 s.block_write_count;
          total_bytes_written = u32 (s.total_bytes_written + length buffer);
        };
        block_data = store offset buffer d.block_data;
      },
    )
segment false offset d buffer =
    let s = d.status in
    let filled = fill (length buffer) 0 buffer in
    (
      filled,
      record {
        status = record s {
          block_read_count = inc32 s.block_read_count;
          total_bytes_read = u32 (s.total_bytes_read + length buffer);
        };
        block_data = store offset filled d.block_data;
      },
    )

-- `bio_for_each_segment`
unfoldable pub segments : Bool → ℕ → WalDisk → List (List ℕ) → List (List ℕ) × WalDisk
unfolding segment
segments write offset d [] = ([], d)
segments write offset d (buffer ∷ buffers) =
    let r = segment write offset d buffer in
    let rest = segments write (u64 (offset + length buffer)) r.1 buffers in (r.0 ∷ rest.0, rest.1)

-- `write` is the direction, `sector` the first sector; the result holds the segments' buffers.
unfoldable pub wal_block_submit_bio : WalDisk → Bool → ℕ → List (List ℕ) → List (List ℕ) × WalDisk
unfolding segments
wal_block_submit_bio d write sector buffers = segments write (u64 (sector * block_size)) d buffers
