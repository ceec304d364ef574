-- ===== src/Uringblk/Queue/Segments.antt =====
-- The loop of `uringblk_queue_rq` over the segments of a virtual disk.
use mathlib.Core.Path.{subst}
use native.Mathlib.Nat.{le_refl}
use kvm_db.Prelude.{
  ℕ, ◌+◌, ◌-◌, ◌^◌, ◌≤◌, ◌<◌, min, ◌≡◌, refl, sym, ap, ◌∙◌, some, List, [], ◌∷◌, ◌++◌, length,
  length-append, length-take, length-drop, take, drop, take_all, arith, replicate, length-replicate,
  replicate-append,
}
use kvm_db.Prelude.Word.{u64}
use kvm_db.Prelude.Splice.{splice, splice-append}
use kvm_db.Prelude.Slice.{bytes, split_take, overwrite_all, splice_none}
use kvm_db.Uringblk.Backend.{Backend, virtual_backend_flush}
use kvm_db.Uringblk.Backend.Memory.{IsMemory, write_up, discard_up, read_up, splice_IsMemory}
use kvm_db.Uringblk.Queue.{virtual_io, virtual_segments, cut}
use kvm_db.Uringblk.Request.{BlkStatus, sts_ok, ReqOp, op_read, op_write, op_flush, op_discard}

-- A backend with another memory.
abbrev pub with_memory : Backend → List ℕ → Backend
with_memory b m = record b { private_data = some m }

pub cut_inside :
    (dev_size pos len : ℕ) → dev_size < 2 ^ 63 → pos + len ≤ dev_size → cut dev_size pos len ≡ len
cut_inside dev_size pos len small h = ground arith

write_io :
    (b : Backend) (pos : ℕ) (buf : List ℕ) (v : IsMemory b)
    → pos + length buf ≤ b.capacity
    → virtual_io op_write b pos buf (length buf)
      ≡ (sts_ok, buf, with_memory b (splice pos buf v.memory))
unfolding virtual_io
write_io b pos buf v h =
    rw (write_up b pos buf (length buf) v h, take_all (length buf) buf (le_refl (length buf))) refl

read_io :
    (b : Backend) (pos : ℕ) (buf : List ℕ) (v : IsMemory b)
    → pos + length buf ≤ b.capacity
    → virtual_io op_read b pos buf (length buf) ≡ (sts_ok, take (length buf) (drop pos v.memory), b)
unfolding virtual_io splice
read_io b pos buf v h =
    let n : length (take (length buf) (drop pos v.memory)) ≡ length buf =
      omega
        (arith, length-take (length buf) (drop pos v.memory), length-drop pos v.memory, v.size) in
    rw
      (
        read_up b pos buf (length buf) v h,
        overwrite_all buf (take (length buf) (drop pos v.memory)) n,
      )
      refl

-- One round of the loop that succeeds.
segment_step :
    (op : ReqOp) (b after : Backend) (pos : ℕ) (buf filled : List ℕ) (bufs : List (List ℕ))
    → b.capacity < 2 ^ 63
    → pos + length buf ≤ b.capacity
    → virtual_io op b pos buf (length buf) ≡ (sts_ok, filled, after)
    → let rest = virtual_segments op b.capacity after (pos + length buf) bufs in
      virtual_segments op b.capacity b pos (buf ∷ bufs) ≡ (rest.0, filled ∷ rest.1, rest.2)
unfolding virtual_segments
segment_step op b after pos buf filled bufs small h e =
    let next : u64 (pos + length buf) ≡ pos + length buf = omega arith in
    ground (arith, e, next, cut_inside b.capacity pos (length buf) small h)

discard_io :
    (b : Backend) (pos : ℕ) (buf : List ℕ) (v : IsMemory b)
    → pos + length buf ≤ b.capacity
    → virtual_io op_discard b pos buf (length buf)
      ≡ (sts_ok, buf, with_memory b (splice pos (replicate (length buf) 0) v.memory))
unfolding virtual_io
discard_io b pos buf v h = rw (discard_up b pos (length buf) v h) refl

-- What the segments put on the disk, where each puts `put buf`.
abbrev stored : (List ℕ → List ℕ) → List (List ℕ) → List ℕ
stored put [] = []
stored put (buf ∷ bufs) = put buf ++ stored put bufs

-- An operation that stores as many bytes for each segment as it has, inside the capacity.
module _ (op : ReqOp) (put : List ℕ → List ℕ)
    (same : (buf : List ℕ) → length (put buf) ≡ length buf)
    (io : (b : Backend) (pos : ℕ) (buf : List ℕ) (v : IsMemory b)
      → pos + length buf ≤ b.capacity
      → virtual_io op b pos buf (length buf)
        ≡ (sts_ok, buf, with_memory b (splice pos (put buf) v.memory))) where
  segments_store :
      (b : Backend) (pos : ℕ) (bufs : List (List ℕ)) (v : IsMemory b)
      → pos + length (bytes bufs) ≤ b.capacity
      → virtual_segments op b.capacity b pos bufs
        ≡ (sts_ok, bufs, with_memory b (splice pos (stored put bufs) v.memory))
  unfolding virtual_segments
  segments_store b pos [] v h = ground (arith, splice_none pos v.memory)
  segments_store b pos (buf ∷ bufs) v h =
      let both = length-append buf (bytes bufs) in
      let w = splice_IsMemory b pos (put buf) v in
      let after = with_memory b (splice pos (put buf) v.memory) in
      segment_step op b after pos buf buf bufs v.small (omega (arith, both))
        (io b pos buf v (omega (arith, both)))
      ∙ ap (λ (r : BlkStatus × List (List ℕ) × Backend). (r.0, buf ∷ r.1, r.2))
          (segments_store after (pos + length buf) bufs w (omega (arith, both)))
      ∙ ap (λ m. (sts_ok, buf ∷ bufs, with_memory b m))
          (subst
            (λ n.
              splice (pos + n) (stored put bufs) (splice pos (put buf) v.memory)
              ≡ splice pos (put buf ++ stored put bufs) v.memory)
            (same buf) (splice-append pos (put buf) (stored put bufs) v.memory))

stored_all : (bufs : List (List ℕ)) → stored (λ buf. buf) bufs ≡ bytes bufs
stored_all [] = refl
stored_all (buf ∷ bufs) = ap (λ l. buf ++ l) (stored_all bufs)

stored_zeros :
    (bufs : List (List ℕ))
    → stored (λ buf. replicate (length buf) 0) bufs ≡ replicate (length (bytes bufs)) 0
unfolding replicate
stored_zeros [] = refl
stored_zeros (buf ∷ bufs) =
    ap (λ l. replicate (length buf) 0 ++ l) (stored_zeros bufs)
    ∙ replicate-append (length buf) (length (bytes bufs)) 0
    ∙ ap (λ n. replicate n 0) (sym (length-append buf (bytes bufs)))

-- A write whose bytes lie inside the capacity.
pub segments_write :
    (b : Backend) (pos : ℕ) (bufs : List (List ℕ)) (v : IsMemory b)
    → pos + length (bytes bufs) ≤ b.capacity
    → virtual_segments op_write b.capacity b pos bufs
      ≡ (sts_ok, bufs, with_memory b (splice pos (bytes bufs) v.memory))
segments_write b pos bufs v h =
    segments_store op_write (λ buf. buf) (λ buf. refl) write_io b pos bufs v h
    ∙ ap (λ l. (sts_ok, bufs, with_memory b (splice pos l v.memory))) (stored_all bufs)

-- A discard of a range inside the capacity.
pub segments_discard :
    (b : Backend) (pos : ℕ) (bufs : List (List ℕ)) (v : IsMemory b)
    → pos + length (bytes bufs) ≤ b.capacity
    → virtual_segments op_discard b.capacity b pos bufs
      ≡ (sts_ok, bufs, with_memory b (splice pos (replicate (length (bytes bufs)) 0) v.memory))
segments_discard b pos bufs v h =
    segments_store op_discard (λ buf. replicate (length buf) 0)
      (λ buf. length-replicate (length buf) 0) discard_io b pos bufs v h
    ∙ ap (λ l. (sts_ok, bufs, with_memory b (splice pos l v.memory))) (stored_zeros bufs)

flush_io :
    (b : Backend) (pos : ℕ) (buf : List ℕ)
    → virtual_io op_flush b pos buf (length buf) ≡ (sts_ok, buf, b)
unfolding virtual_io virtual_backend_flush
flush_io b pos buf = refl

-- A flush, whatever its segments.
pub segments_flush :
    (b : Backend) (pos : ℕ) (bufs : List (List ℕ))
    → b.capacity < 2 ^ 63
    → pos + length (bytes bufs) ≤ b.capacity
    → virtual_segments op_flush b.capacity b pos bufs ≡ (sts_ok, bufs, b)
unfolding virtual_segments
segments_flush b pos [] small h = refl
segments_flush b pos (buf ∷ bufs) small h =
    let both = length-append buf (bytes bufs) in
    segment_step op_flush b b pos buf buf bufs small (omega (arith, both)) (flush_io b pos buf)
    ∙ ap (λ (r : BlkStatus × List (List ℕ) × Backend). (r.0, buf ∷ r.1, r.2))
        (segments_flush b (pos + length buf) bufs small (omega (arith, both)))

-- The slices of the memory that a read's buffers take.
abbrev pub slices : ℕ → List ℕ → List (List ℕ) → List (List ℕ)
slices pos m [] = []
slices pos m (buf ∷ bufs) = take (length buf) (drop pos m) ∷ slices (pos + length buf) m bufs

pub bytes-slices :
    (pos : ℕ) (m : List ℕ) (bufs : List (List ℕ))
    → pos + length (bytes bufs) ≤ length m
    → bytes (slices pos m bufs) ≡ take (length (bytes bufs)) (drop pos m)
bytes-slices pos m [] h = refl
bytes-slices pos m (buf ∷ bufs) h =
    let both = length-append buf (bytes bufs) in
    let all : min (length buf) (length m - pos) ≡ length buf = omega (arith, both) in
    ap (λ l. take (length buf) (drop pos m) ++ l)
      (bytes-slices (pos + length buf) m bufs (omega (arith, both)))
    ∙ subst
        (λ n.
          take n (drop pos m) ++ take (length (bytes bufs)) (drop (pos + n) m)
          ≡ take (length buf + length (bytes bufs)) (drop pos m))
        all (split_take (length buf) (length (bytes bufs)) pos m)
    ∙ ap (λ n. take n (drop pos m)) (sym both)

pub segments_read :
    (b : Backend) (pos : ℕ) (bufs : List (List ℕ)) (v : IsMemory b)
    → pos + length (bytes bufs) ≤ b.capacity
    → virtual_segments op_read b.capacity b pos bufs ≡ (sts_ok, slices pos v.memory bufs, b)
unfolding virtual_segments
segments_read b pos [] v h = refl
segments_read b pos (buf ∷ bufs) v h =
    let both = length-append buf (bytes bufs) in
    segment_step op_read b b pos buf (take (length buf) (drop pos v.memory)) bufs v.small
      (omega (arith, both)) (read_io b pos buf v (omega (arith, both)))
    ∙ ap
        (λ (r : BlkStatus × List (List ℕ) × Backend).
          (r.0, take (length buf) (drop pos v.memory) ∷ r.1, r.2))
        (segments_read b (pos + length buf) bufs v (omega (arith, both)))
