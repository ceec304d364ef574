-- ===== src/Uringblk/Queue/Ended.antt =====
-- How often a request is ended, which has to be once.
use kvm_db.Prelude.{
  ℕ, ◌+◌, ◌*◌, ◌/◌, take, length-append, ◌^◌, ◌≤◌, ◌<◌, min, ◌≡◌, ◌≢◌, refl, ◌⊎◌, inl, inr, true,
  none, some, List, [], ◌∷◌, length, arith,
}
use kvm_db.Prelude.Word.{u64}
use kvm_db.Prelude.Slice.{bytes}
use kvm_db.Uringblk.Queue.Slices.{request, bounds_pass}
use kvm_db.Uringblk.Queue.Segments.{cut_inside}
use kvm_db.Prelude.Errno.{Result, ok, err}
use kvm_db.Uringblk.Backend.{backend_virtual, backend_device}
use kvm_db.Uringblk.Queue.{Queued, device_segments, do_io, uringblk_queue_rq, submitted}
use kvm_db.Uringblk.Device.{
  device_backend_write_async, AsyncEnv, IoContext, page_size, page_bio, device_backend_bio_complete,
}
use kvm_db.Uringblk.Request.{
  Request, ReqOp, op_read, op_write, op_flush, op_discard, op_drv_in, op_drv_out, op_other,
  count_request, UringblkDisk, sts_ok,
}

-- How often a request is ended by the time its bio, if one is under way, has completed.
abbrev pub endings : Queued → ℕ
endings q = length q.ended + elim q.pending [ none ↦ 0 | some ctx ↦ 1 ]

submitted_once :
    (d : UringblkDisk) (bufs : List (List ℕ)) (r : Result IoContext)
    → endings (submitted d bufs r) ≡ 1
submitted_once d bufs (err e) = refl
submitted_once d bufs (ok ctx) = refl

device_once :
    (env : AsyncEnv) (op : ReqOp) (d : UringblkDisk) (pos : ℕ) (bufs : List (List ℕ))
    → bufs ≢ []
    → endings (device_segments env op d pos bufs) ≡ 1
unfolding device_segments
device_once env op d pos [] some_buf = absurd (some_buf refl)
device_once env op_read d pos (buf ∷ bufs) some_buf = submitted_once d _ _
device_once env op_write d pos (buf ∷ bufs) some_buf = submitted_once d _ _
device_once env op_flush d pos (buf ∷ bufs) some_buf = submitted_once d _ _
device_once env op_discard d pos (buf ∷ bufs) some_buf = refl
device_once env op_drv_in d pos (buf ∷ bufs) some_buf = refl
device_once env op_drv_out d pos (buf ∷ bufs) some_buf = refl
device_once env op_other d pos (buf ∷ bufs) some_buf = refl

do_io_once :
    (env : AsyncEnv) (d : UringblkDisk) (pos : ℕ) (rq : Request)
    → (d.backend.kind ≡ backend_virtual) ⊎ (rq.buffers ≢ [])
    → endings (do_io env d pos rq) ≡ 1
unfolding do_io
do_io_once env d pos rq (inl e) = ground arith
do_io_once env d pos rq (inr e) = ground (arith, device_once env rq.op d pos rq.buffers e)

-- Every request to a virtual disk, and every request with a segment to a device, is ended exactly once,
-- on each of the ways out: refused, failed, done, or by the completion of its bio.
pub ended_once :
    (lbs : ℕ) (env : AsyncEnv) (d : UringblkDisk) (rq : Request)
    → (d.backend.kind ≡ backend_virtual) ⊎ (rq.buffers ≢ [])
    → endings (uringblk_queue_rq lbs env d rq) ≡ 1
unfolding uringblk_queue_rq
ended_once lbs env d rq e =
    let pos = u64 (rq.sector * lbs) in
    let counted : UringblkDisk = record d { stats = count_request d.stats rq.op rq.size } in
    ground (arith, do_io_once env counted pos rq e)

-- A flush without data of a device is accepted and never ended, wherever its sector lies inside the
-- device.
pub flush_never_ends :
    (lbs : ℕ) (env : AsyncEnv) (d : UringblkDisk) (sector : ℕ)
    → d.backend.kind ≡ backend_device
    → d.backend.capacity < 2 ^ 63
    → sector * lbs < d.backend.capacity
    → endings (
        uringblk_queue_rq lbs env d
          (record { op = op_flush; sector = sector; size = 0; buffers = [] }))
      ≡ 0
unfolding uringblk_queue_rq do_io device_segments
flush_never_ends lbs env d sector k small inside = ground arith

-- The bio of a write: the first page of the first segment.
abbrev pub first_page : ℕ → List ℕ → IoContext
first_page pos buf = record {
  op = op_write;
  pos = pos;
  len = length buf;
  bio_sector = pos / 2 ^ 9;
  bv_len = min (length buf) page_size;
  page = take (min (length buf) page_size) buf;
}

-- A write to an opened device, inside it and with memory at hand, submits one bio with the first page of
-- the first segment, and when that bio succeeds the whole request is ended with success: bytes beyond
-- 4096, and further segments, are never written.
pub first_page_only :
    (lbs : ℕ) (env : AsyncEnv) (d : UringblkDisk) (sector : ℕ) (buf : List ℕ) (bufs : List (List ℕ))
    (handle page : List ℕ)
    → d.backend.kind ≡ backend_device
    → d.backend.private_data ≡ some handle
    → (env.context ≡ true) × (env.page ≡ true) × (env.added ≡ true)
    → d.backend.capacity < 2 ^ 63
    → 0 < length (bytes (buf ∷ bufs))
    → sector * lbs + length (bytes (buf ∷ bufs)) ≤ d.backend.capacity
    → let q = uringblk_queue_rq lbs env d (request op_write sector (buf ∷ bufs)) in
      let ctx = first_page (sector * lbs) buf in
      (q.ended ≡ [])
      × (q.pending ≡ some ctx)
      × (device_backend_bio_complete ctx sts_ok page buf ≡ (sts_ok, buf))
unfolding uringblk_queue_rq do_io device_segments page_bio device_backend_write_async
    device_backend_bio_complete
first_page_only lbs env d sector buf bufs handle page k up (c, p, a) small something inside =
    let both = length-append buf (bytes bufs) in
    let pos : u64 (sector * lbs) ≡ sector * lbs = omega (arith, inside) in
    let full =
      bounds_pass d.backend.capacity (sector * lbs) (length (bytes (buf ∷ bufs))) small something
        inside in
    let whole =
      cut_inside d.backend.capacity (sector * lbs) (length buf) small (omega (arith, both)) in
    (ground (arith, pos, full, whole, both), ground (arith, pos, full, whole, both), refl)
