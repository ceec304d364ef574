-- ===== src/Uringblk/Queue.antt =====
-- `uringblk_queue_rq` of driver/uringblk_main.c: the bounds check, the statistics, the virtual
-- backend's loop over the segments, and the device backend's single asynchronous bio with its
-- completion.
pub mod Segments
pub mod Slices
pub mod Machine
pub mod Served
pub mod Refines
pub mod Commute
pub mod Ended
pub mod Counts
use kvm_db.Prelude.{
  ℕ, ◌+◌, ◌-◌, ◌*◌, ◌/◌, ◌^◌, min, Bool, true, false, not, ◌||◌, Option, none, some, List, [], ◌∷◌,
  length, take, ltb, if◌then◌else◌,
}
use kvm_db.Prelude.Word.{u64, inc64}
use kvm_db.Prelude.Splice.{splice}
use kvm_db.Prelude.Errno.{Errno, einval, enomem, eio, Result, ok, err}
use kvm_db.Uringblk.Request.{
  BlkStatus, sts_ok, sts_ioerr, sts_notsupp, sts_other, ReqOp, op_read, op_write, op_flush,
  op_discard, op_drv_in, op_drv_out, op_other, Request, UringblkStats, UringblkDisk, count_request,
}
use kvm_db.Uringblk.Device.{
  IoContext, AsyncEnv, page_size, page_bio, device_backend_read_async, device_backend_write_async,
  device_backend_flush_async, device_backend_bio_complete,
}
use kvm_db.Uringblk.Backend.{
  Backend, backend_virtual, backend_device, past_end, virtual_backend_read, virtual_backend_write,
  virtual_backend_flush, virtual_backend_discard,
}

-- A result of the backend as a status.
abbrev pub status_of : Result ℕ → BlkStatus
status_of (ok n) = sts_ok
status_of (err e) = sts_ioerr

-- The virtual backend on one segment: the status, the buffer and the backend afterwards.
unfoldable pub virtual_io : ReqOp → Backend → ℕ → List ℕ → ℕ → BlkStatus × List ℕ × Backend
unfolding virtual_backend_read virtual_backend_write virtual_backend_flush virtual_backend_discard
virtual_io op_read b pos buf len =
    let r = virtual_backend_read b pos buf len in (status_of r.0, r.1, b)
virtual_io op_write b pos buf len =
    let r = virtual_backend_write b pos buf len in (status_of r.0, buf, r.1)
virtual_io op_flush b pos buf len = (status_of (virtual_backend_flush b), buf, b)
virtual_io op_discard b pos buf len =
    let r = virtual_backend_discard b pos len in (status_of r.0, buf, r.1)
virtual_io op b pos buf len = (sts_notsupp, buf, b)

-- `len` cut at the end of the device.
abbrev pub cut : ℕ → ℕ → ℕ → ℕ
cut dev_size pos len = if ltb dev_size (u64 (pos + len)) then u64 (dev_size + 2 ^ 64 - pos) else len

-- The loop over the segments, which stops at the first that fails.
unfoldable pub virtual_segments :
    ReqOp → ℕ → Backend → ℕ → List (List ℕ) → BlkStatus × List (List ℕ) × Backend
unfolding virtual_io
virtual_segments op dev_size b pos [] = (sts_ok, [], b)
virtual_segments op dev_size b pos (buf ∷ bufs) =
    let len = cut dev_size pos (length buf) in
    let (status, filled, after) = virtual_io op b pos buf len in
    let rest = virtual_segments op dev_size after (u64 (pos + len)) bufs in
    elim status [
      | sts_ok ↦ (rest.0, filled ∷ rest.1, rest.2)
      | failed ↦ (failed, filled ∷ bufs, after)
    ]

-- What a call of `queue_rq` leaves: the statuses with which `blk_mq_end_request` was called, the
-- buffers, the disk, and the bio that is under way. The return value is BLK_STS_OK on every way out.
pub record Queued : Type 0 where
  pub ended : List BlkStatus
  pub buffers : List (List ℕ)
  pub disk : UringblkDisk
  pub pending : Option IoContext

-- The end of a device request's only round: a failure ends the request, a success leaves a bio.
abbrev pub submitted : UringblkDisk → List (List ℕ) → Result IoContext → Queued
submitted d bufs (err e) = record {
  ended = sts_ioerr ∷ [];
  buffers = bufs;
  disk = d;
  pending = none;
}
submitted d bufs (ok ctx) = record { ended = []; buffers = bufs; disk = d; pending = some ctx }

-- The loop over the segments for a device, which leaves at the first.
unfoldable pub device_segments : AsyncEnv → ReqOp → UringblkDisk → ℕ → List (List ℕ) → Queued
unfolding device_backend_read_async device_backend_write_async device_backend_flush_async
device_segments env op d pos [] = record { ended = []; buffers = []; disk = d; pending = none }
device_segments env op d pos (buf ∷ bufs) =
    let b = d.backend in
    let len = cut b.capacity pos (length buf) in
    let ends : BlkStatus → Queued =
      λ s. record { ended = s ∷ []; buffers = buf ∷ bufs; disk = d; pending = none } in
    let queued : Queued = elim op [
      | op_read ↦ submitted d (buf ∷ bufs) (device_backend_read_async env b pos len)
      | op_write ↦ submitted d (buf ∷ bufs) (device_backend_write_async env b pos buf len)
      | op_flush ↦ submitted d (buf ∷ bufs) (device_backend_flush_async env b)
      | op_discard ↦ ends sts_ok
      | _ ↦ ends sts_notsupp
    ] in
    queued

-- `a < b` on 64-bit numbers read as signed
abbrev pub signed_ltb : ℕ → ℕ → Bool
signed_ltb a b = ltb (u64 (a + 2 ^ 63)) (u64 (b + 2 ^ 63))

-- `pos >= dev_size || pos + blk_rq_bytes(rq) > dev_size`
abbrev pub out_of_bounds : ℕ → ℕ → ℕ → Bool
out_of_bounds dev_size pos size =
    not (signed_ltb pos dev_size) || signed_ltb dev_size (u64 (pos + size))

unfoldable pub do_io : AsyncEnv → UringblkDisk → ℕ → Request → Queued
unfolding virtual_segments device_segments
do_io env d pos rq = elim d.backend.kind [
  | backend_device ↦ device_segments env rq.op d pos rq.buffers
  | backend_virtual ↦
      let r = virtual_segments rq.op d.backend.capacity d.backend pos rq.buffers in
      record { ended = r.0 ∷ []; buffers = r.1; disk = record d { backend = r.2 }; pending = none }
]

-- `logical_block_size` is the module's parameter.
unfoldable pub uringblk_queue_rq : ℕ → AsyncEnv → UringblkDisk → Request → Queued
unfolding count_request do_io
uringblk_queue_rq logical_block_size env d rq =
    let pos = u64 (rq.sector * logical_block_size) in
    let counted = record d { stats = count_request d.stats rq.op rq.size } in
    let ends : BlkStatus → Queued =
      λ s. record { ended = s ∷ []; buffers = rq.buffers; disk = d; pending = none } in
    let queued : Queued = elim rq.op [
      | op_drv_in ↦ ends sts_ok
      | op_drv_out ↦ ends sts_ok
      | op_other ↦ ends sts_notsupp
      | _ ↦ do_io env counted pos rq
    ] in
    if out_of_bounds d.backend.capacity pos rq.size then ends sts_ioerr else queued
