-- ===== src/Tools/Tests.antt =====
-- Concrete runs of the user-space tools.
use kvm_db.Prelude.{
  ℕ, ◌+◌, ◌^◌, ◌≡◌, refl, ◌⊎◌, Bool, true, false, none, some, List, [], ◌∷◌, length, replicate,
  length-replicate, ltb, arith,
}
use kvm_db.Prelude.Errno.{eio, enoent, eopnotsupp, Result, ok, err}
use kvm_db.Wal.Status.{WalStatus}
use kvm_db.Uringblk.Backend.{Backend, backend_virtual}
use kvm_db.Uringblk.Backend.Memory.{IsMemory}
use kvm_db.Uringblk.Instance.{no_stats}
use kvm_db.Uringblk.Admin.{AdminDevice, LockState}
use kvm_db.Tools.WalNodes.{NodeEnv, Nodes, rwal, wal, thrown, new_manager, create_devices}
use kvm_db.Tools.WalClient.{WalFiles, Client, test_device_operations}
use kvm_db.Tools.WalClient.Driver.{CharFile, BlockFiles, driver_files, test_reads_nothing}
use kvm_db.Tools.UringClient.{
  BlkClient, RingEnv, CmdBuffer, UringCmdArea, called, identify, get_limits, get_features,
  set_features, get_geometry, get_stats,
}
use kvm_db.Tools.UringClient.Unreachable.{driver_path, zero_area, IsUp, admin_unreachable}
use kvm_db.Tools.UringIo.{read_async, write_async, flush_async}
use kvm_db.Tools.UringIo.Transfers.{Ended, transfer_lem}
use kvm_db.Tools.Main.{MainEnv, main, terminated, exited, KeptOrFree, main_lem}

abbrev status : WalStatus
status = record {
  char_read_count = 3;
  char_write_count = 0;
  block_read_count = 0;
  block_write_count = 0;
  total_bytes_read = 0;
  total_bytes_written = 0;
  current_mode = 0;
}

abbrev blocks : BlockFiles ℕ
blocks = record { read = λ n count. (ok [], n); write = λ n bytes. (ok (length bytes), n) }

abbrev open_client : Client
open_client = record { char_fd = some 3; block_fd = some 4; open_fds = 2 }

abbrev letters : ℕ → Bool
letters b = ltb 31 b

abbrev char_file : CharFile
char_file = record { status = status; pos = 0 }

abbrev files : WalFiles (CharFile × ℕ)
files = driver_files letters true true blocks

test_reads_nothing_example :
    (test_device_operations files open_client (char_file, 0)).1.0.status.char_read_count ≡ 3
test_reads_nothing_example = test_reads_nothing letters true true blocks open_client (char_file, 0)

-- The block node cannot be made.
abbrev node_env : NodeEnv
node_env = record {
  remove = λ path. true;
  mknod = λ path. elim path [ rwal ↦ none | wal ↦ some eio ];
  unlink = λ path. true;
  opens = λ path. true;
  stat = λ path. none;
}

abbrev main_env : MainEnv
main_env = record { nodes = node_env; kvm = ok 5; char = ok 6; block = err enoent }

abbrev free_paths : Nodes
free_paths = record { at_rwal = none; at_wal = none }

main_lem_example :
    let r = main files main_env free_paths (char_file, 0) in
    ((r.ending ≡ terminated) × ((create_devices node_env (new_manager free_paths)).0 ≡ thrown))
    ⊎ ((r.ending ≡ exited 1)
        × (r.client.open_fds ≡ 0)
        × KeptOrFree none r.nodes.at_rwal
        × KeptOrFree none r.nodes.at_wal)
    ⊎ ((r.ending ≡ exited 0)
        × (r.client.open_fds ≡ 0)
        × (r.nodes ≡ record { at_rwal = none; at_wal = none }))
main_lem_example = main_lem files main_env free_paths (char_file, 0) refl refl

abbrev ring : RingEnv
ring = record {
  poll_init = some eopnotsupp;
  queue_init = none;
  get_sqe = true;
  submit = none;
  wait_cqe = none;
}

ring-IsUp : IsUp ring
ring-IsUp = record { init = refl; sqe = refl; submitted = refl; waited = refl }

abbrev blk_client : BlkClient
blk_client = record { fd = some 7; path = []; open_fds = 1 }

abbrev cells : List ℕ
cells = replicate 8192 0

abbrev backend : Backend
backend = record { kind = backend_virtual; private_data = some cells; capacity = 8192 }

backend-IsMemory : IsMemory backend
backend-IsMemory = record {
  memory = cells;
  up = refl;
  size = length-replicate {A = ℕ} 8192 0;
  small = omega arith;
  kind = refl;
}

abbrev device : AdminDevice
device = record {
  model = [];
  firmware = [];
  nr_hw_queues = 4;
  queue_depth = 64;
  stats = no_stats;
  latency_buckets = [];
  backend = backend;
  features = 7;
}

abbrev lock : LockState
lock = record { locked = false; interrupted = false }

abbrev prepared : CmdBuffer → UringCmdArea
prepared buffer = zero_area

abbrev word : List ℕ
word = 7 ∷ 0 ∷ 0 ∷ 0 ∷ 0 ∷ 0 ∷ 0 ∷ 0 ∷ []

admin_unreachable_example :
    let path = driver_path 512 lock device false true none prepared [] in
    (identify ring path blk_client ≡ called (err eopnotsupp))
    × (get_limits ring path blk_client ≡ called (err eopnotsupp))
    × (get_features ring path blk_client ≡ called (err eopnotsupp))
    × (set_features ring path blk_client word ≡ called (err eopnotsupp))
    × (get_geometry ring path blk_client ≡ called (err eopnotsupp))
    × (get_stats ring path blk_client ≡ called (err eopnotsupp))
admin_unreachable_example =
    admin_unreachable ring 512 lock device true none prepared [] word blk_client 7 refl ring-IsUp
      refl (omega arith) refl

-- A kernel that serves any length.
abbrev serves : ℕ → ℕ → Result ℕ
serves offset len = ok len

transfer_lem_example :
    let r = read_async ring blk_client serves 0 (2 ^ 32 + 5) in
    let w = write_async ring blk_client serves 0 (2 ^ 32 + 5) in
    Ended ring blk_client (serves 0 5) r.value
    × (r.rings ≡ 0)
    × Ended ring blk_client (serves 0 5) w.value
    × (w.rings ≡ 0)
    × ((flush_async ring blk_client (ok 0)).rings ≡ 0)
transfer_lem_example = transfer_lem ring blk_client serves (ok 0) 0 (2 ^ 32 + 5)
