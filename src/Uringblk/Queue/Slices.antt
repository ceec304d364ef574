-- ===== src/Uringblk/Queue/Slices.antt =====
-- What requests to a virtual disk do to its memory.
use kvm_db.Prelude.{
  ℕ, ◌+◌, ◌*◌, ◌^◌, ◌≤◌, ◌<◌, ◌≡◌, refl, ap, ◌∙◌, false, none, List, [], ◌∷◌, length, take, drop,
  arith,
}
use kvm_db.Prelude.Word.{u64}
use kvm_db.Prelude.Splice.{splice, length-splice}
use kvm_db.Prelude.Slice.{bytes, take-splice}
use kvm_db.Uringblk.Backend.Memory.{IsMemory}
use kvm_db.Uringblk.Queue.Segments.{
  with_memory, slices, bytes-slices, segments_write, segments_read,
}
use kvm_db.Uringblk.Queue.{do_io, uringblk_queue_rq, out_of_bounds}
use kvm_db.Uringblk.Device.{AsyncEnv}
use kvm_db.Uringblk.Request.{Request, UringblkDisk, sts_ok, ReqOp, op_read, op_write, count_request}

pub bounds_pass :
    (dev_size pos size : ℕ)
    → dev_size < 2 ^ 63
    → 0 < size
    → pos + size ≤ dev_size
    → out_of_bounds dev_size pos size ≡ false
bounds_pass dev_size pos size small pos_size h = ground arith

-- A request for the bytes of the buffers.
abbrev pub request : ReqOp → ℕ → List (List ℕ) → Request
request op sector bufs = record {
  op = op;
  sector = sector;
  size = length (bytes bufs);
  buffers = bufs;
}

module _ (lbs : ℕ) (env : AsyncEnv) (d : UringblkDisk) (v : IsMemory d.backend) (sector : ℕ)
    (bufs : List (List ℕ)) (something : 0 < length (bytes bufs))
    (inside : sector * lbs + length (bytes bufs) ≤ d.backend.capacity) where
  pos_same : u64 (sector * lbs) ≡ sector * lbs
  pos_same = omega (arith, inside, v.small)

  -- A write request inside a virtual disk is ended once with success; the memory holds from its first
  -- byte on the bytes of all its segments one after the other and nothing else of it changes, and the
  -- write is counted.
  queue_write : uringblk_queue_rq lbs env d (request op_write sector bufs) ≡ record {
    ended = sts_ok ∷ [];
    buffers = bufs;
    disk = record {
      stats = count_request d.stats op_write (length (bytes bufs));
      backend = with_memory d.backend (splice (sector * lbs) (bytes bufs) v.memory);
    };
    pending = none;
  }
  unfolding uringblk_queue_rq do_io
  queue_write = ground (
    arith,
    pos_same,
    v.kind,
    bounds_pass d.backend.capacity (sector * lbs) (length (bytes bufs)) v.small something inside,
    segments_write d.backend (sector * lbs) bufs v inside,
  )

  -- A read request inside a virtual disk is ended once with success, counted, and leaves the memory.
  queue_read : uringblk_queue_rq lbs env d (request op_read sector bufs) ≡ record {
    ended = sts_ok ∷ [];
    buffers = slices (sector * lbs) v.memory bufs;
    disk = record {
      stats = count_request d.stats op_read (length (bytes bufs));
      backend = d.backend;
    };
    pending = none;
  }
  unfolding uringblk_queue_rq do_io
  queue_read = ground (
    arith,
    pos_same,
    v.kind,
    bounds_pass d.backend.capacity (sector * lbs) (length (bytes bufs)) v.small something inside,
    segments_read d.backend (sector * lbs) bufs v inside,
  )

-- What a write request put on a virtual disk, a later read request of the same range gives back, however
-- the two split their bytes into segments; both are ended once, with success. The range lies inside the
-- disk and is not empty.
pub read_after_write :
    (lbs : ℕ) (env : AsyncEnv) (d : UringblkDisk) (sector : ℕ) (written bufs : List (List ℕ))
    → IsMemory d.backend
    → 0 < length (bytes written)
    → length (bytes bufs) ≡ length (bytes written)
    → sector * lbs + length (bytes written) ≤ d.backend.capacity
    → let w = uringblk_queue_rq lbs env d (request op_write sector written) in
      let r = uringblk_queue_rq lbs env w.disk (request op_read sector bufs) in
      (w.ended ≡ sts_ok ∷ []) × (r.ended ≡ sts_ok ∷ []) × (bytes r.buffers ≡ bytes written)
read_after_write lbs env d sector written bufs v something same inside =
    let m = splice (sector * lbs) (bytes written) v.memory in
    let size : length m ≡ d.backend.capacity =
      length-splice (sector * lbs) (bytes written) v.memory ∙ v.size in
    let after : UringblkDisk = record {
      stats = count_request d.stats op_write (length (bytes written));
      backend = with_memory d.backend m;
    } in
    let up : IsMemory after.backend = record {
      memory = m;
      up = refl;
      size = size;
      small = v.small;
      kind = v.kind;
    } in
    rw
      (
        queue_write lbs env d v sector written something inside,
        queue_read lbs env after up sector bufs (omega (arith, same)) (omega (arith, same)),
      )
      (
        refl,
        refl,
        bytes-slices (sector * lbs) m bufs (omega (arith, size, same))
            ∙ ap (λ n. take n (drop (sector * lbs) m)) same
            ∙ take-splice (sector * lbs) (bytes written) v.memory (omega (arith, v.size)),
      )
