-- ===== src/Tools/WalNodes.antt =====
-- The device nodes of the log driver, `WAL_device_manager` of src/kvm_wal.cc: /dev/rwal and /dev/wal.
use kvm_db.Prelude.{
  ℕ, ◌≡◌, ◌≢◌, ◌⊎◌, Bool, true, false, not, ◌&&◌, ◌||◌, Option, none, some, if◌then◌else◌, arith,
}
use kvm_db.Prelude.Errno.{Errno, enoent, enotty}

pub data NodeKind : Type 0 where
  char_node block_node other_node : NodeKind

-- A file: its kind and device numbers.
pub record Node : Type 0 where
  pub kind : NodeKind
  pub major : ℕ
  pub minor : ℕ

pub data WalPath : Type 0 where
  rwal wal : WalPath

-- The two paths of the file system.
pub record Nodes : Type 0 where
  pub at_rwal : Option Node
  pub at_wal : Option Node

abbrev pub node_at : WalPath → Nodes → Option Node
node_at rwal fs = fs.at_rwal
node_at wal fs = fs.at_wal

abbrev pub put_node : WalPath → Option Node → Nodes → Nodes
put_node rwal n fs = record fs { at_rwal = n }
put_node wal n fs = record fs { at_wal = n }

-- A call returns, returns an error, or throws, which `std::filesystem::remove` does where it cannot
-- remove the file.
pub data Attempt : Type 0 where
  done thrown : Attempt
  failed : Errno → Attempt

-- What the system calls give for each path.
pub record NodeEnv : Type 0 where
  pub remove : WalPath → Bool
  pub mknod : WalPath → Option Errno
  pub unlink : WalPath → Bool
  pub opens : WalPath → Bool
  pub stat : WalPath → Option Errno

-- The two flags, and the file system that all managers share.
pub record Manager : Type 0 where
  pub char_created : Bool
  pub block_created : Bool
  pub fs : Nodes

abbrev device_major : ℕ
device_major = 240

abbrev exists : WalPath → Nodes → Bool
exists path fs = elim (node_at path fs) [ none ↦ false | some n ↦ true ]

abbrev pub wanted : WalPath → Node
wanted rwal = record { kind = char_node; major = device_major; minor = 0 }
wanted wal = record { kind = block_node; major = device_major; minor = 1 }

abbrev make_node : NodeEnv → WalPath → Nodes → Attempt × Nodes
make_node env path fs = elim (env.mknod path) [
  | some e ↦ (failed e, fs)
  | none ↦ (done, put_node path (some (wanted path)) fs)
]

-- The node's kind and minor number are those of its path.
unfoldable pub create_single_device : NodeEnv → WalPath → Nodes → Attempt × Nodes
create_single_device env path fs =
    if exists path fs
    then if env.remove path then make_node env path (put_node path none fs) else (thrown, fs)
    else make_node env path fs

-- The flag and the file system afterwards.
unfoldable pub cleanup_single_device : NodeEnv → WalPath → Bool → Nodes → Bool × Nodes
cleanup_single_device env path created fs =
    if created && exists path fs
    then (false, if env.unlink path then put_node path none fs else fs)
    else (created, fs)

unfoldable pub create_devices : NodeEnv → Manager → Attempt × Manager
unfolding create_single_device cleanup_single_device
create_devices env m =
    let char = create_single_device env rwal m.fs in
    elim char.0 [
      | done ↦
          let block = create_single_device env wal char.1 in
          let created : Manager = record m { char_created = true; fs = block.1 } in
          elim block.0 [
            | done ↦ (done, record created { block_created = true })
            | thrown ↦ (thrown, created)
            | failed e ↦
                let cleaned = cleanup_single_device env rwal true block.1 in
                (failed e, record created { char_created = cleaned.0; fs = cleaned.1 })
          ]
      | a ↦ (a, record m { fs = char.1 })
    ]

-- `cleanup_devices`, which the destructor calls.
unfoldable pub cleanup_devices : NodeEnv → Manager → Manager
unfolding cleanup_single_device
cleanup_devices env m =
    let char = cleanup_single_device env rwal m.char_created m.fs in
    let block = cleanup_single_device env wal m.block_created char.1 in
    record { char_created = char.0; block_created = block.0; fs = block.1 }

-- Move assignment: the manager that is assigned to, and the one that is moved from, over one file
-- system.
unfoldable pub move_assign : NodeEnv → Manager → Manager → Manager × Manager
unfolding cleanup_devices
move_assign env m rhs =
    let cleaned = cleanup_devices env m in
    (
      record rhs { fs = cleaned.fs },
      record { char_created = false; block_created = false; fs = cleaned.fs },
    )

unfoldable pub are_devices_accessible : NodeEnv → Manager → Bool
are_devices_accessible env m =
    (exists rwal m.fs && env.opens rwal) && (exists wal m.fs && env.opens wal)

abbrev same_kind : NodeKind → NodeKind → Bool
same_kind char_node char_node = true
same_kind block_node block_node = true
same_kind other_node other_node = true
same_kind a b = false

unfoldable pub test_single_device : NodeEnv → WalPath → Nodes → Option Errno
test_single_device env path fs = elim (env.stat path) [
  | some e ↦ some e
  | none ↦ elim (node_at path fs) [
    | none ↦ some enoent
    | some n ↦ if same_kind n.kind (wanted path).kind then none else some enotty
  ]
]

unfoldable pub test_devices : NodeEnv → Manager → Option Errno
unfolding test_single_device
test_devices env m =
    if not m.char_created || not m.block_created
    then some enoent
    else elim (test_single_device env rwal m.fs) [
      | some e ↦ some e
      | none ↦ test_single_device env wal m.fs
    ]

-- A new manager over a file system.
abbrev pub new_manager : Nodes → Manager
new_manager fs = record { char_created = false; block_created = false; fs = fs }

-- Creating the nodes either succeeds, and then both are there with their kinds and numbers and pass
-- the test where `stat` succeeds; or does not, and then the block node's flag is not set and the
-- destructor, where `unlink` succeeds, leaves each path free or as it was.
pub create_devices_lem :
    (env : NodeEnv) (fs : Nodes)
    → env.unlink rwal ≡ true
    → env.stat rwal ≡ none
    → env.stat wal ≡ none
    → let r = create_devices env (new_manager fs) in
      let after = cleanup_devices env r.1 in
      ((r.0 ≡ done)
        × (r.1.fs ≡ record { at_rwal = some (wanted rwal); at_wal = some (wanted wal) })
        × (test_devices env r.1 ≡ none))
      ⊎ ((r.0 ≢ done)
          × (r.1.block_created ≡ false)
          × ((after.fs.at_rwal ≡ none) ⊎ (after.fs.at_rwal ≡ fs.at_rwal))
          × ((after.fs.at_wal ≡ none) ⊎ (after.fs.at_wal ≡ fs.at_wal)))
unfolding create_devices cleanup_devices test_devices
create_devices_lem env fs u s t = ground arith

-- A manager that created both nodes leaves neither once it is destroyed, where `unlink` succeeds.
pub create-cleanup :
    (env : NodeEnv) (fs : Nodes)
    → env.unlink rwal ≡ true
    → env.unlink wal ≡ true
    → (create_devices env (new_manager fs)).0 ≡ done
    → cleanup_devices env (create_devices env (new_manager fs)).1
      ≡ new_manager (record { at_rwal = none; at_wal = none })
unfolding create_devices cleanup_devices
create-cleanup env fs u v up = ground arith
