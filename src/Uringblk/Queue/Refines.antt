-- ===== src/Uringblk/Queue/Refines.antt =====
-- A whole sequence of requests to `uringblk_queue_rq` on a virtual disk.
use mathlib.Core.Path.{subst}
use kvm_db.Prelude.{ℕ, ◌*◌, ◌^◌, ◌<◌, ◌≡◌, refl, sym, ap, ◌∙◌, List, [], ◌∷◌, arith}
use kvm_db.Prelude.Slice.{bytes}
use kvm_db.Uringblk.Backend.Memory.{IsMemory, at}
use kvm_db.Uringblk.Queue.{uringblk_queue_rq}
use kvm_db.Uringblk.Queue.Machine.{serve, serve_all, queue_all, IsSound, AllSound}
use kvm_db.Uringblk.Queue.Served.{Served, served}
use kvm_db.Uringblk.Device.{AsyncEnv}
use kvm_db.Uringblk.Request.{Request, UringblkDisk}

module _ (lbs : ℕ) (env : AsyncEnv) where
  one_request :
      (d : UringblkDisk) (rq : Request) (v : IsMemory d.backend)
      (small : d.backend.capacity < 2 ^ 62) (r : IsSound lbs rq)
      → Served lbs env d v small rq.sector r.low rq.buffers
          (omega (arith, r.sum, r.few))
          (serve d.backend.capacity (at d.backend) rq.op (rq.sector * lbs) (bytes rq.buffers))
          (uringblk_queue_rq lbs env d rq)
  one_request d rq v small r =
      subst
        (λ n.
          Served lbs env d v small rq.sector r.low rq.buffers (omega (arith, r.sum, r.few))
            (serve d.backend.capacity (at d.backend) rq.op (rq.sector * lbs) (bytes rq.buffers))
            (uringblk_queue_rq lbs env d (record rq { size = n })))
        (sym r.sum)
        (served lbs env d v small rq.sector r.low rq.buffers (omega (arith, r.sum, r.few)) rq.op)

  -- A virtual disk of less than 2 ^ 62 bytes on any sequence of requests (each as long as its segments,
  -- shorter than 4 GiB and at a position that a file can have) is an array of bytes: every request is
  -- ended exactly once, with an I/O error and no effect if it starts at or reaches past the end; otherwise
  -- a read gives the bytes of its range as the requests before it left them, a write replaces them and a
  -- discard zeroes them, whatever the segments, a flush and a driver's command change nothing and end with
  -- success, and another operation with "not supported". The disk is left as that array, still up.
  pub disk_refines :
      (d : UringblkDisk) (rqs : List Request)
      → IsMemory d.backend
      → d.backend.capacity < 2 ^ 62
      → AllSound lbs rqs
      → let r = queue_all lbs env d rqs in
        let s = serve_all lbs d.backend.capacity (at d.backend) rqs in
        (r.0 ≡ s.0) × IsMemory r.1.backend × (at r.1.backend ≡ s.1)
  unfolding queue_all
  disk_refines d [] v small sound = (refl, v, refl)
  disk_refines d (rq ∷ rqs) v small (r, sound) =
      let first = one_request d rq v small r in
      let q = uringblk_queue_rq lbs env d rq in
      let s = serve d.backend.capacity (at d.backend) rq.op (rq.sector * lbs) (bytes rq.buffers) in
      let (answers, up, disk) =
        disk_refines q.disk rqs first.up (omega (arith, first.kept, small)) sound in
      let moved =
        ap (λ c. serve_all lbs c (at q.disk.backend) rqs) first.kept
        ∙ ap (λ f. serve_all lbs d.backend.capacity f rqs) first.disk in
      (
        ap (λ a. a ∷ (queue_all lbs env q.disk rqs).0) first.answer
            ∙ ap (λ l. s.0 ∷ l) (answers ∙ ap (λ t. t.0) moved),
        up,
        disk ∙ ap (λ t. t.1) moved,
      )
