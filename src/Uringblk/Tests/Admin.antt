-- ===== src/Uringblk/Tests/Admin.antt =====
-- Runs of the configuration, the percentile and the administration commands.
use kvm_db.Prelude.{
  true, ℕ, ◌%◌, ◌≤◌, ◌<◌, ◌≡◌, refl, ◌⊎◌, ◌↔◌, true, false, none, some, List, [], ◌∷◌, arith,
}
use kvm_db.Prelude.Errno.{einval, ok, err}
use kvm_db.Uringblk.Latency.{calculate_latency_percentile, percentile_lem}
use kvm_db.Uringblk.Admin.{
  AdminDevice, UringCmd, LockState, is_supported, uringblk_cmd_set_features, uringblk_uring_cmd,
}
use kvm_db.Uringblk.Admin.Features.{IsFeatures, set_features_lem, uring_cmd-features}
use kvm_db.Uringblk.Tests.{five, stats, backend}

abbrev histogram : List ℕ
histogram = 3 ∷ 0 ∷ 6 ∷ 1 ∷ []

percentile_lem_example :
    (calculate_latency_percentile histogram 50 % 10 ≡ 0)
    × (calculate_latency_percentile histogram 50 < 40)
    × ((calculate_latency_percentile histogram 50 ≤ 20) ↔ (5 ≤ 9))
percentile_lem_example =
    percentile_lem 3 (0 ∷ 6 ∷ 1 ∷ []) 50 (ground arith) (omega arith) (omega arith) (omega arith) 2

abbrev device : AdminDevice
device = record {
  model = five;
  firmware = five;
  nr_hw_queues = 4;
  queue_depth = 64;
  stats = stats;
  latency_buckets = histogram;
  backend = backend;
  features = 15;
}

abbrev free : LockState
free = record { locked = false; interrupted = false }

abbrev set_all : UringCmd
set_all = record {
  cancel = false;
  nonblock = true;
  opcode = 4;
  len = 8;
  copies = true;
  argument = some 95;
}

abbrev get_features : UringCmd
get_features = record {
  cancel = false;
  nonblock = true;
  opcode = 3;
  len = 8;
  copies = true;
  argument = none;
}

set_features_lem_example :
    (IsFeatures 32
      × (uringblk_cmd_set_features device (some 32) 8 ≡ (ok 0, record device { features = 32 })))
    ⊎ ((¬ IsFeatures 32) × (uringblk_cmd_set_features device (some 32) 8 ≡ (err einval, device)))
set_features_lem_example = set_features_lem device 32 8 (omega arith)

uring_cmd-features_example :
    (f : ℕ) × (is_supported f ≡ true)
    × ((uringblk_uring_cmd 512 free (some device) set_all).1
        ≡ some (record device { features = f }))
uring_cmd-features_example = uring_cmd-features 512 free device set_all refl
