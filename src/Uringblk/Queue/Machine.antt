-- ===== src/Uringblk/Queue/Machine.antt =====
-- What a disk promises to a sequence of requests, and that `uringblk_queue_rq` on a virtual disk keeps it.
use native.Mathlib.Nat.{suc-add}
use kvm_db.Prelude.{
  ℕ, zero, suc, ◌+◌, ◌*◌, ◌^◌, ◌≤◌, ◌<◌, ◌≡◌, refl, ap, ◌&&◌, not, List, [], ◌∷◌, length, get_or,
  take, drop, ltb, leb, if◌then◌else◌, arith,
}
use kvm_db.Prelude.Slice.{bytes}
use kvm_db.Uringblk.Backend.Memory.{patched}
use kvm_db.Uringblk.Queue.{uringblk_queue_rq, out_of_bounds}
use kvm_db.Uringblk.Device.{AsyncEnv}
use kvm_db.Uringblk.Request.{
  Request, UringblkDisk, BlkStatus, sts_ok, sts_ioerr, sts_notsupp, ReqOp, op_read, op_write,
  op_flush, op_discard, op_drv_in, op_drv_out, op_other,
}

-- The bytes at `n` addresses from `pos` on.
abbrev pub loaded : (ℕ → ℕ) → ℕ → ℕ → List ℕ
loaded disk pos zero = []
loaded disk pos (suc n) = disk pos ∷ loaded disk (pos + 1) n

-- A request inside the disk, with the address that it starts at and the bytes of its segments: the
-- statuses it is ended with, the bytes of its segments afterwards, and the disk.
abbrev pub serve_inside : (ℕ → ℕ) → ReqOp → ℕ → List ℕ → (List BlkStatus × List ℕ) × (ℕ → ℕ)
serve_inside disk op_read pos content = ((sts_ok ∷ [], loaded disk pos (length content)), disk)
serve_inside disk op_write pos content =
    ((sts_ok ∷ [], content), patched disk pos (length content) (λ i. get_or content i 0))
serve_inside disk op_flush pos content = ((sts_ok ∷ [], content), disk)
serve_inside disk op_discard pos content =
    ((sts_ok ∷ [], content), patched disk pos (length content) (λ i. 0))
serve_inside disk op_drv_in pos content = ((sts_ok ∷ [], content), disk)
serve_inside disk op_drv_out pos content = ((sts_ok ∷ [], content), disk)
serve_inside disk op_other pos content = ((sts_notsupp ∷ [], content), disk)

-- Any request on a disk of `capacity` bytes.
abbrev pub serve : ℕ → (ℕ → ℕ) → ReqOp → ℕ → List ℕ → (List BlkStatus × List ℕ) × (ℕ → ℕ)
serve capacity disk op pos content =
    if ltb pos capacity && leb (pos + length content) capacity
    then serve_inside disk op pos content
    else ((sts_ioerr ∷ [], content), disk)

module _ (lbs capacity : ℕ) where
  abbrev pub serve_all : (ℕ → ℕ) → List Request → List (List BlkStatus × List ℕ) × (ℕ → ℕ)
  serve_all disk [] = ([], disk)
  serve_all disk (rq ∷ rqs) =
      let s = serve capacity disk rq.op (rq.sector * lbs) (bytes rq.buffers) in
      let rest = serve_all s.1 rqs in (s.0 ∷ rest.0, rest.1)

-- The driver on a sequence of requests: for each the statuses it was ended with and the bytes of its
-- segments, and the disk at the end.
unfoldable pub queue_all :
    ℕ → AsyncEnv → UringblkDisk → List Request → List (List BlkStatus × List ℕ) × UringblkDisk
queue_all lbs env d [] = ([], d)
queue_all lbs env d (rq ∷ rqs) =
    let q = uringblk_queue_rq lbs env d rq in
    let rest = queue_all lbs env q.disk rqs in ((q.ended, bytes q.buffers) ∷ rest.0, rest.1)

-- What the block layer sees to: a request's size is the sum of its segments and less than 4 GiB, and its
-- start is a position that a file can have.
pub record IsSound (lbs : ℕ) (rq : Request) : Type 0 where
  pub sum : rq.size ≡ length (bytes rq.buffers)
  pub few : rq.size < 2 ^ 32
  pub low : rq.sector * lbs < 2 ^ 63

abbrev pub AllSound : ℕ → List Request → Type 0
AllSound lbs [] = Unit
AllSound lbs (rq ∷ rqs) = IsSound lbs rq × AllSound lbs rqs

pub bounds_exact :
    (dev_size pos size : ℕ)
    → dev_size < 2 ^ 62
    → size < 2 ^ 32
    → pos < 2 ^ 63
    → out_of_bounds dev_size pos size ≡ not (ltb pos dev_size && leb (pos + size) dev_size)
bounds_exact dev_size pos size small few low = ground arith

drop-at : (m : List ℕ) (pos : ℕ) → pos < length m → drop pos m ≡ get_or m pos 0 ∷ drop (pos + 1) m
drop-at [] pos h = absurd (omega arith)
drop-at (x ∷ m) zero h = refl
drop-at (x ∷ m) (suc pos) h = rw suc-add (drop-at m pos (omega arith))

pub take-loaded :
    (m : List ℕ) (pos n : ℕ)
    → pos + n ≤ length m
    → take n (drop pos m) ≡ loaded (λ i. get_or m i 0) pos n
take-loaded m pos zero h = refl
take-loaded m pos (suc n) h =
    rw (drop-at m pos (omega arith))
      (ap (λ l. get_or m pos 0 ∷ l) (take-loaded m (pos + 1) n (omega arith)))
