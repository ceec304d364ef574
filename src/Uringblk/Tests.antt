-- ===== src/Uringblk/Tests.antt =====
-- Concrete runs of the block driver.
mod Admin
mod Load
mod Disk
use kvm_db.Prelude.{
  Bool, true, ℕ, ◌%◌, ◌≤◌, ◌<◌, ◌≡◌, refl, ◌⊎◌, ◌↔◌, inl, true, false, none, some, List, [], ◌∷◌,
  length, get_or, replicate, length-replicate, arith,
}
use kvm_db.Prelude.Splice.{splice}
use kvm_db.Prelude.Slice.{bytes}
use kvm_db.Prelude.Errno.{einval, ok, err}
use kvm_db.Uringblk.Backend.{
  Backend, backend_virtual, backend_device, virtual_backend_read, virtual_backend_write,
  virtual_backend_discard,
}
use kvm_db.Uringblk.Backend.Memory.{IsMemory, at, patched}
use kvm_db.Uringblk.Queue.{uringblk_queue_rq}
use kvm_db.Uringblk.Device.{AsyncEnv, device_backend_bio_complete}
use kvm_db.Uringblk.Request.{
  UringblkStats, UringblkDisk, Request, op_read, op_write, op_flush, op_discard, sts_ok, sts_ioerr,
  count_request,
}
use kvm_db.Uringblk.Queue.Slices.{request, read_after_write}
use kvm_db.Uringblk.Queue.Ended.{endings, ended_once, flush_never_ends, first_page, first_page_only}
use kvm_db.Uringblk.Queue.Counts.{outside_refused, inside-IsCounted, IsCounted}
use kvm_db.Uringblk.Config.{parse_device_list}
use kvm_db.Uringblk.Latency.{calculate_latency_percentile, percentile_lem}
use kvm_db.Uringblk.Admin.{
  AdminDevice, UringCmd, LockState, queued, is_supported, uringblk_cmd_set_features, dispatch,
  uringblk_cmd_get_features, uringblk_uring_cmd,
}
use kvm_db.Uringblk.Abi.{features}
use kvm_db.Uringblk.Admin.Features.{IsFeatures, set_features_lem, uring_cmd-features}

abbrev pub cells : List ℕ
cells = replicate 4096 0

abbrev pub backend : Backend
backend = record { kind = backend_virtual; private_data = some cells; capacity = 4096 }

abbrev backend-IsMemory : IsMemory backend
backend-IsMemory = record {
  memory = cells;
  up = refl;
  size = length-replicate {A = ℕ} 4096 0;
  small = omega arith;
  kind = refl;
}

abbrev pub five : List ℕ
five = 1 ∷ 2 ∷ 3 ∷ 4 ∷ 5 ∷ []

abbrev pub stats : UringblkStats
stats = record {
  read_ops = 0;
  write_ops = 0;
  flush_ops = 0;
  discard_ops = 0;
  read_sectors = 0;
  write_sectors = 0;
  read_bytes = 0;
  write_bytes = 0;
  queue_full_events = 0;
  media_errors = 0;
  retries = 0;
  p50_read_latency_us = 0;
  p99_read_latency_us = 0;
  p50_write_latency_us = 0;
  p99_write_latency_us = 0;
}

abbrev disk : UringblkDisk
disk = record { stats = stats; backend = backend }

abbrev env : AsyncEnv
env = record { context = true; page = true; added = true }

abbrev outside : Request
outside = record { op = op_write; sector = 8; size = 5; buffers = five ∷ [] }

abbrev inside : Request
inside = record { op = op_discard; sector = 7; size = 512; buffers = [] }

outside_refused_example :
    uringblk_queue_rq 512 env disk outside
    ≡ record { ended = sts_ioerr ∷ []; buffers = five ∷ []; disk = disk; pending = none }
outside_refused_example =
    outside_refused 512 env disk outside (omega arith) (omega arith) (omega arith) (omega arith)

inside-IsCounted_example :
    IsCounted op_discard 512 stats (uringblk_queue_rq 512 env disk inside).disk.stats
inside-IsCounted_example =
    inside-IsCounted 512 env disk inside (omega arith) (omega arith) (omega arith)

ended_once_example : endings (uringblk_queue_rq 512 env disk inside) ≡ 1
ended_once_example = ended_once 512 env disk inside (inl refl)

abbrev opened : UringblkDisk
opened = record {
  stats = stats;
  backend = record { kind = backend_device; private_data = some cells; capacity = 4096 };
}

flush_never_ends_example :
    endings (
      uringblk_queue_rq 512 env opened
        (record { op = op_flush; sector = 0; size = 0; buffers = [] }))
    ≡ 0
flush_never_ends_example = flush_never_ends 512 env opened 0 refl (omega arith) (omega arith)

first_page_only_example :
    let q = uringblk_queue_rq 512 env opened (request op_write 2 (five ∷ five ∷ [])) in
    (q.ended ≡ [])
    × (q.pending ≡ some (first_page 1024 five))
    × (device_backend_bio_complete (first_page 1024 five) sts_ok [] five ≡ (sts_ok, five))
first_page_only_example =
    first_page_only 512 env opened 2 five (five ∷ []) cells [] refl refl (refl, refl, refl)
      (omega arith) (omega arith) (omega arith)
