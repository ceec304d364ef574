-- ===== src/Uringblk/Tests/Disk.antt =====
-- A sequence of requests to a virtual disk.
use kvm_db.Prelude.{◌*◌, ◌^◌, ℕ, some, inl, ◌≡◌, refl, List, [], ◌∷◌, arith}
use kvm_db.Uringblk.Backend.Memory.{IsMemory, at}
use kvm_db.Uringblk.Queue.Machine.{serve_all, queue_all, AllSound}
use kvm_db.Uringblk.Queue.Commute.{two_queues}
use kvm_db.Uringblk.Queue.Refines.{disk_refines}
use kvm_db.Uringblk.Backend.{Backend}
use kvm_db.Uringblk.Instance.{UringblkDevice}
use kvm_db.Uringblk.Load.{not_loaded, uringblk_init, uringblk_admin_open, opened}
use kvm_db.Uringblk.Load.Answers.{disk_of, loaded_answers}
use kvm_db.Uringblk.Tests.Load.{params, all_well, loads}
use kvm_db.Uringblk.Request.{Request, BlkStatus, op_read, op_write, op_flush, op_discard}
use kvm_db.Uringblk.Tests.{backend-IsMemory, disk, env, five, backend}

-- A write in two segments, a flush, a discard of the second half, a read of all, a read past the end.
abbrev requests : List Request
requests =
    record { op = op_write; sector = 2; size = 10; buffers = five ∷ five ∷ [] }
    ∷ record { op = op_flush; sector = 0; size = 0; buffers = [] }
    ∷ record { op = op_discard; sector = 3; size = 5; buffers = five ∷ [] }
    ∷ record { op = op_read; sector = 2; size = 5; buffers = five ∷ [] }
    ∷ record { op = op_read; sector = 8; size = 5; buffers = five ∷ [] }
    ∷ []

sound : AllSound 512 requests
sound = (
  record { sum = refl; few = omega arith; low = omega arith },
  (
    record { sum = refl; few = omega arith; low = omega arith },
    (
      record { sum = refl; few = omega arith; low = omega arith },
      (
        record { sum = refl; few = omega arith; low = omega arith },
        (record { sum = refl; few = omega arith; low = omega arith }, tt),
      ),
    ),
  ),
)

disk_refines_example :
    let r = queue_all 512 env disk requests in
    let s = serve_all 512 4096 (at backend) requests in
    (r.0 ≡ s.0) × IsMemory r.1.backend × (at r.1.backend ≡ s.1)
disk_refines_example = disk_refines 512 env disk requests backend-IsMemory (omega arith) sound

loaded_answers_example :
    (dev : UringblkDevice) × (b : Backend) × (uringblk_admin_open
        (uringblk_init params all_well (not_loaded 0)).1
        0
      ≡ opened dev)
    × (dev.backend ≡ some b)
    × ((queue_all 512 env (disk_of dev b) requests).0
        ≡ (serve_all 512 (1 * 2 ^ 20) (λ i. 0) requests).0)
loaded_answers_example =
    loaded_answers params all_well env requests refl refl (omega arith) (omega arith) loads sound

abbrev writes : Request
writes = record { op = op_write; sector = 2; size = 10; buffers = five ∷ five ∷ [] }

abbrev erases : Request
erases = record { op = op_discard; sector = 3; size = 5; buffers = five ∷ [] }

two_queues_example :
    let r = queue_all 512 env disk (writes ∷ erases ∷ []) in
    let r' = queue_all 512 env disk (erases ∷ writes ∷ []) in
    (x : List BlkStatus × List ℕ) × (y : List BlkStatus × List ℕ) × (r.0 ≡ x ∷ y ∷ [])
    × (r'.0 ≡ y ∷ x ∷ [])
    × (at r.1.backend ≡ at r'.1.backend)
two_queues_example =
    two_queues 512 env disk writes erases backend-IsMemory (omega arith)
      (record { sum = refl; few = omega arith; low = omega arith })
      (record { sum = refl; few = omega arith; low = omega arith }) (inl (omega arith))
