-- ===== src/Uringblk/Queue/Served.antt =====
-- `uringblk_queue_rq` on a virtual disk, one request after the other, is the machine.
use kvm_db.Prelude.{
  fun_ext, ℕ, ◌+◌, ◌*◌, ◌^◌, ◌<◌, ◌≤◌, ◌≡◌, refl, sym, ap, ◌∙◌, ◌&&◌, not, true, false, none, some,
  List, [], ◌∷◌, length, get_or, replicate, length-replicate, get_or-replicate, ltb, leb, inl, inr,
  arith, Bool-cases,
}
use mathlib.Core.Path.{subst}
use kvm_db.Prelude.Word.{u64}
use kvm_db.Prelude.Slice.{bytes}
use kvm_db.Prelude.Splice.{splice}
use kvm_db.Uringblk.Backend.{Backend}
use kvm_db.Uringblk.Backend.Memory.{IsMemory, at, patched, splice_at, at_up, splice_IsMemory}
use kvm_db.Uringblk.Queue.{Queued, virtual_segments, do_io, uringblk_queue_rq, out_of_bounds}
use kvm_db.Uringblk.Queue.Machine.{serve, serve_inside, loaded, bounds_exact, take-loaded}
use kvm_db.Uringblk.Queue.Segments.{
  slices, bytes-slices, segments_read, segments_write, segments_flush, segments_discard,
}
use kvm_db.Uringblk.Device.{AsyncEnv}
use kvm_db.Uringblk.Request.{
  Request, UringblkStats, UringblkDisk, BlkStatus, sts_ok, sts_ioerr, ReqOp, op_read, op_write,
  op_flush, op_discard, op_drv_in, op_drv_out, op_other, count_request,
}

abbrev IsIo : ReqOp → Type 0
IsIo op_read = Unit
IsIo op_write = Unit
IsIo op_flush = Unit
IsIo op_discard = Unit
IsIo op = ⊥

module _ (lbs : ℕ) (env : AsyncEnv) (d : UringblkDisk) (v : IsMemory d.backend)
    (small : d.backend.capacity < 2 ^ 62) (sector : ℕ) (low : sector * lbs < 2 ^ 63)
    (bufs : List (List ℕ)) (few : length (bytes bufs) < 2 ^ 32) where
  abbrev pos : ℕ
  pos = sector * lbs

  abbrev size : ℕ
  size = length (bytes bufs)

  abbrev rq : ReqOp → Request
  rq op = record { op = op; sector = sector; size = size; buffers = bufs }

  abbrev q : ReqOp → Queued
  q op = uringblk_queue_rq lbs env d (rq op)

  -- The driver's outcome `x` is what the machine says, `s`.
  pub record Served (s : (List BlkStatus × List ℕ) × (ℕ → ℕ)) (x : Queued) : Type 0 where
    pub answer : (x.ended, bytes x.buffers) ≡ s.0
    pub up : IsMemory x.disk.backend
    pub kept : x.disk.backend.capacity ≡ d.backend.capacity
    pub disk : at x.disk.backend ≡ s.1

  -- What the machine says of a request inside the disk, and of any.
  abbrev says_inside : ReqOp → (List BlkStatus × List ℕ) × (ℕ → ℕ)
  says_inside op = serve_inside (at d.backend) op pos (bytes bufs)

  abbrev says : ReqOp → (List BlkStatus × List ℕ) × (ℕ → ℕ)
  says op = serve d.backend.capacity (at d.backend) op pos (bytes bufs)

  same : u64 pos ≡ pos
  same = omega (arith, low)

  refused :
      (op : ReqOp)
      → (ltb pos d.backend.capacity && leb (pos + size) d.backend.capacity) ≡ false
      → q op ≡ record { ended = sts_ioerr ∷ []; buffers = bufs; disk = d; pending = none }
  unfolding uringblk_queue_rq
  refused op out =
      let b = bounds_exact d.backend.capacity pos size small few low in ground (arith, same, b, out)

  module _
      (inside : (ltb pos d.backend.capacity && leb (pos + size) d.backend.capacity) ≡ true) where
    within : out_of_bounds d.backend.capacity pos size ≡ false
    within = bounds_exact d.backend.capacity pos size small few low ∙ ap not inside

    abbrev done : UringblkStats → BlkStatus × List (List ℕ) × Backend → Queued
    done stats r = record {
      ended = r.0 ∷ [];
      buffers = r.1;
      disk = record { stats = stats; backend = r.2 };
      pending = none;
    }

    queue_io :
        (op : ReqOp)
        → IsIo op
        → q op
          ≡ done
              (count_request d.stats op size)
              (virtual_segments op d.backend.capacity d.backend pos bufs)
    unfolding uringblk_queue_rq do_io
    queue_io op_read h = ground (arith, same, v.kind, within)
    queue_io op_write h = ground (arith, same, v.kind, within)
    queue_io op_flush h = ground (arith, same, v.kind, within)
    queue_io op_discard h = ground (arith, same, v.kind, within)
    queue_io op_drv_in h = absurd h
    queue_io op_drv_out h = absurd h
    queue_io op_other h = absurd h

    -- A driver's command.
    queue_drv : (op : ReqOp) → (IsIo op → ⊥) → Served (says_inside op) (q op)
    unfolding uringblk_queue_rq
    queue_drv op_read h = absurd (h tt)
    queue_drv op_write h = absurd (h tt)
    queue_drv op_flush h = absurd (h tt)
    queue_drv op_discard h = absurd (h tt)
    queue_drv op_drv_in h =
        rw (same, within) (record { answer = refl; up = v; kept = refl; disk = refl })
    queue_drv op_drv_out h =
        rw (same, within) (record { answer = refl; up = v; kept = refl; disk = refl })
    queue_drv op_other h =
        rw (same, within) (record { answer = refl; up = v; kept = refl; disk = refl })

    -- The work of the loop over the segments, that it ends well.
    io-Served :
        (op : ReqOp) (filled : List (List ℕ)) (after : Backend)
        → IsIo op
        → virtual_segments op d.backend.capacity d.backend pos bufs ≡ (sts_ok, filled, after)
        → Served (says_inside op) (done (count_request d.stats op size) (sts_ok, filled, after))
        → Served (says_inside op) (q op)
    io-Served op filled after io e s =
        subst (Served (says_inside op))
          (sym (queue_io op io ∙ ap (done (count_request d.stats op size)) e)) s

    fits : pos + size ≤ d.backend.capacity
    fits = ground (arith, inside)

    queue_flush : Served (says_inside op_flush) (q op_flush)
    queue_flush =
        io-Served op_flush bufs d.backend tt (segments_flush d.backend pos bufs v.small fits)
          (record { answer = refl; up = v; kept = refl; disk = refl })

    queue_write : Served (says_inside op_write) (q op_write)
    queue_write = io-Served op_write bufs _ tt (segments_write d.backend pos bufs v fits) (record {
      answer = refl;
      up = splice_IsMemory d.backend pos (bytes bufs) v;
      kept = refl;
      disk =
          splice_at d.backend pos (bytes bufs) (λ i. get_or (bytes bufs) i 0) v fits
            (λ i less. refl);
    })

    zeroed :
        at (record d.backend { private_data = some (splice pos (replicate size 0) v.memory) })
        ≡ patched (at d.backend) pos size (λ i. 0)
    zeroed =
        let n : length (replicate {A = ℕ} size 0) ≡ size = length-replicate size 0 in
        subst
          (λ k.
            at (record d.backend { private_data = some (splice pos (replicate size 0) v.memory) })
            ≡ patched (at d.backend) pos k (λ i. 0))
          n
          (splice_at d.backend pos (replicate size 0) (λ i. 0) v (omega (arith, n, fits))
            (λ i less. get_or-replicate size i 0))

    queue_discard : Served (says_inside op_discard) (q op_discard)
    queue_discard =
        io-Served op_discard bufs _ tt (segments_discard d.backend pos bufs v fits) (record {
          answer = refl;
          up = splice_IsMemory d.backend pos (replicate size 0) v;
          kept = refl;
          disk = zeroed;
        })

    bytes_read : bytes (slices pos v.memory bufs) ≡ loaded (at d.backend) pos size
    bytes_read =
        bytes-slices pos v.memory bufs (omega (arith, fits, v.size))
        ∙ take-loaded v.memory pos size (omega (arith, fits, v.size))
        ∙ ap (λ f. loaded f pos size) (fun_ext λ i. sym (at_up d.backend v i))

    queue_read : Served (says_inside op_read) (q op_read)
    queue_read =
        io-Served op_read (slices pos v.memory bufs) d.backend tt
          (segments_read d.backend pos bufs v fits)
          (record {
            answer = ap (λ l. (sts_ok ∷ [], l)) bytes_read;
            up = v;
            kept = refl;
            disk = refl;
          })

    inside-Served : (op : ReqOp) → Served (says_inside op) (q op)
    inside-Served op_read = queue_read
    inside-Served op_write = queue_write
    inside-Served op_flush = queue_flush
    inside-Served op_discard = queue_discard
    inside-Served op_drv_in = queue_drv op_drv_in (λ h. h)
    inside-Served op_drv_out = queue_drv op_drv_out (λ h. h)
    inside-Served op_other = queue_drv op_other (λ h. h)

  pub served : (op : ReqOp) → Served (says op) (q op)
  served op =
      elim (Bool-cases (ltb pos d.backend.capacity && leb (pos + size) d.backend.capacity)) [
        | inl inside ↦ rw inside (inside-Served inside op)
        | inr out ↦
            subst (Served (says op)) (sym (refused op out))
              (rw out (record { answer = refl; up = v; kept = refl; disk = refl }))
      ]
