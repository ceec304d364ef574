-- ===== src/Uringblk/Queue/Counts.antt =====
-- What a request changes besides the memory.
use mathlib.Core.Path.{subst}
use kvm_db.Prelude.{
  Bool, sym, ◌/◌, ◌%◌, ℕ, ◌+◌, ◌*◌, ◌^◌, ◌≤◌, ◌<◌, ◌≡◌, refl, ◌⊎◌, true, false, none, List, [], ◌∷◌,
  arith,
}
use kvm_db.Prelude.Word.{u64}
use kvm_db.Prelude.Errno.{Result, ok, err}
use kvm_db.Uringblk.Queue.{do_io, device_segments, submitted, uringblk_queue_rq, out_of_bounds}
use kvm_db.Uringblk.Device.{AsyncEnv, IoContext}
use kvm_db.Uringblk.Request.{
  Request, ReqOp, op_read, op_write, op_flush, op_discard, op_drv_in, op_drv_out, op_other,
  UringblkDisk, UringblkStats, sts_ioerr, count_request,
}

bounds_fail :
    (dev_size pos size : ℕ)
    → dev_size < 2 ^ 62
    → size < 2 ^ 32
    → pos < 2 ^ 63
    → dev_size < pos + size
    → out_of_bounds dev_size pos size ≡ true
bounds_fail dev_size pos size small few low h = ground arith

-- A request that reaches past the end of the disk is ended once, with an I/O error, and changes
-- neither the buffers, nor the statistics, nor the backend. The disk is smaller than 2 ^ 62 bytes and the
-- position is one that a file can have.
pub outside_refused :
    (lbs : ℕ) (env : AsyncEnv) (d : UringblkDisk) (rq : Request)
    → d.backend.capacity < 2 ^ 62
    → rq.size < 2 ^ 32
    → rq.sector * lbs < 2 ^ 63
    → d.backend.capacity < rq.sector * lbs + rq.size
    → uringblk_queue_rq lbs env d rq
      ≡ record { ended = sts_ioerr ∷ []; buffers = rq.buffers; disk = d; pending = none }
unfolding uringblk_queue_rq
outside_refused lbs env d rq small size pos h =
    let same : u64 (rq.sector * lbs) ≡ rq.sector * lbs = omega (arith, pos) in
    ground (arith, same, bounds_fail d.backend.capacity (rq.sector * lbs) rq.size small size pos h)

submitted-disk :
    (d : UringblkDisk) (bufs : List (List ℕ)) (r : Result IoContext) → (submitted d bufs r).disk ≡ d
submitted-disk d bufs (err e) = refl
submitted-disk d bufs (ok ctx) = refl

device-disk :
    (env : AsyncEnv) (op : ReqOp) (d : UringblkDisk) (pos : ℕ) (bufs : List (List ℕ))
    → (device_segments env op d pos bufs).disk ≡ d
unfolding device_segments
device-disk env op d pos [] = refl
device-disk env op_read d pos (buf ∷ bufs) = submitted-disk d _ _
device-disk env op_write d pos (buf ∷ bufs) = submitted-disk d _ _
device-disk env op_flush d pos (buf ∷ bufs) = submitted-disk d _ _
device-disk env op_discard d pos (buf ∷ bufs) = refl
device-disk env op_drv_in d pos (buf ∷ bufs) = refl
device-disk env op_drv_out d pos (buf ∷ bufs) = refl
device-disk env op_other d pos (buf ∷ bufs) = refl

do_io-stats :
    (env : AsyncEnv) (d : UringblkDisk) (pos : ℕ) (rq : Request)
    → (do_io env d pos rq).disk.stats ≡ d.stats
unfolding do_io
do_io-stats env d pos rq = ground (arith, device-disk env rq.op d pos rq.buffers)

bounds_inside :
    (dev_size pos size : ℕ)
    → dev_size < 2 ^ 63
    → pos < dev_size
    → pos + size ≤ dev_size
    → out_of_bounds dev_size pos size ≡ false
bounds_inside dev_size pos size small low h = ground arith

-- A counter of 64 bits that grows where the test holds.
abbrev pub Grown : Bool → ℕ → ℕ → ℕ → Type 0
Grown true n before after = after ≡ (before + n) % 2 ^ 64
Grown false n before after = after ≡ before

abbrev pub is_read : ReqOp → Bool
is_read op_read = true
is_read op = false

abbrev pub is_write : ReqOp → Bool
is_write op_write = true
is_write op = false

abbrev pub is_flush : ReqOp → Bool
is_flush op_flush = true
is_flush op = false

abbrev pub is_discard : ReqOp → Bool
is_discard op_discard = true
is_discard op = false

-- The statistics after a request of an operation and a size, counter by counter.
pub record IsCounted (op : ReqOp) (size : ℕ) (s after : UringblkStats) : Type 0 where
  pub read_ops : Grown (is_read op) 1 s.read_ops after.read_ops
  pub read_sectors : Grown (is_read op) (size / 512) s.read_sectors after.read_sectors
  pub read_bytes : Grown (is_read op) size s.read_bytes after.read_bytes
  pub write_ops : Grown (is_write op) 1 s.write_ops after.write_ops
  pub write_sectors : Grown (is_write op) (size / 512) s.write_sectors after.write_sectors
  pub write_bytes : Grown (is_write op) size s.write_bytes after.write_bytes
  pub flush_ops : Grown (is_flush op) 1 s.flush_ops after.flush_ops
  pub discard_ops : Grown (is_discard op) 1 s.discard_ops after.discard_ops
  pub queue_full_events : after.queue_full_events ≡ s.queue_full_events
  pub media_errors : after.media_errors ≡ s.media_errors
  pub retries : after.retries ≡ s.retries
  pub p50_read : after.p50_read_latency_us ≡ s.p50_read_latency_us
  pub p99_read : after.p99_read_latency_us ≡ s.p99_read_latency_us
  pub p50_write : after.p50_write_latency_us ≡ s.p50_write_latency_us
  pub p99_write : after.p99_write_latency_us ≡ s.p99_write_latency_us

count_request-IsCounted :
    (s : UringblkStats) (op : ReqOp) (size : ℕ) → IsCounted op size s (count_request s op size)
unfolding count_request
count_request-IsCounted s op size = record {
  read_ops = ground arith;
  read_sectors = ground arith;
  read_bytes = ground arith;
  write_ops = ground arith;
  write_sectors = ground arith;
  write_bytes = ground arith;
  flush_ops = ground arith;
  discard_ops = ground arith;
  queue_full_events = ground arith;
  media_errors = ground arith;
  retries = ground arith;
  p50_read = ground arith;
  p99_read = ground arith;
  p50_write = ground arith;
  p99_write = ground arith;
}

uncounted :
    (s : UringblkStats) (op : ReqOp) (size : ℕ)
    → (op ≡ op_drv_in) ⊎ (op ≡ op_drv_out) ⊎ (op ≡ op_other)
    → count_request s op size ≡ s
unfolding count_request
uncounted s op size h = ground arith

pub inside_stats :
    (lbs : ℕ) (env : AsyncEnv) (d : UringblkDisk) (rq : Request)
    → d.backend.capacity < 2 ^ 63
    → rq.sector * lbs < d.backend.capacity
    → rq.sector * lbs + rq.size ≤ d.backend.capacity
    → (uringblk_queue_rq lbs env d rq).disk.stats ≡ count_request d.stats rq.op rq.size
unfolding uringblk_queue_rq
inside_stats lbs env d rq small low h =
    let same : u64 (rq.sector * lbs) ≡ rq.sector * lbs = omega arith in
    let counted : UringblkDisk = record d { stats = count_request d.stats rq.op rq.size } in
    ground (
      arith,
      same,
      bounds_inside d.backend.capacity (rq.sector * lbs) rq.size small low h,
      do_io-stats env counted (rq.sector * lbs) rq,
      uncounted d.stats rq.op rq.size,
    )

-- A request inside the disk is counted exactly once under its operation, whether or not the backend then
-- fails: a read adds 1, its sectors of 512 bytes and its bytes to the three counters of reads, a write
-- the same to those of writes, a flush and a discard 1 to theirs, all modulo 2 ^ 64. Every other
-- counter stays, and other operations leave them all.
pub inside-IsCounted :
    (lbs : ℕ) (env : AsyncEnv) (d : UringblkDisk) (rq : Request)
    → d.backend.capacity < 2 ^ 63
    → rq.sector * lbs < d.backend.capacity
    → rq.sector * lbs + rq.size ≤ d.backend.capacity
    → IsCounted rq.op rq.size d.stats (uringblk_queue_rq lbs env d rq).disk.stats
inside-IsCounted lbs env d rq small low h =
    subst (IsCounted rq.op rq.size d.stats) (sym (inside_stats lbs env d rq small low h))
      (count_request-IsCounted d.stats rq.op rq.size)
