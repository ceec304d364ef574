-- ===== src/Uringblk/Admin.antt =====
-- The administration commands of driver/uringblk_main.c: the dispatch of `uringblk_uring_cmd` and its
-- six handlers.
pub mod Features
use kvm_db.Prelude.{
  ℕ, ◌+◌, ◌-◌, ◌*◌, ◌/◌, ◌%◌, ◌^◌, Bool, true, false, not, ◌&&◌, Option, none, some, List, [], ◌∷◌,
  take, length, ltb, ◌==◌, if◌then◌else◌,
}
use kvm_db.Prelude.Word.{u32}
use kvm_db.Prelude.Errno.{
  Errno, einval, efault, enodev, eagain, ecanceled, eopnotsupp, erestartsys, Result, ok, err,
}
use kvm_db.Uringblk.Backend.{Backend}
use kvm_db.Uringblk.Request.{UringblkStats}
use kvm_db.Uringblk.Abi.{
  Identify, Limits, Geometry, Payload, nothing, identity, limits, features, geometry, statistics,
  size_identify, size_limits, size_geometry, size_stats,
}
use kvm_db.Uringblk.Latency.{calculate_latency_percentile}

-- The part of `struct uringblk_device` that the commands use; texts are lists of bytes.
pub record AdminDevice : Type 0 where
  pub model : List ℕ
  pub firmware : List ℕ
  pub nr_hw_queues : ℕ
  pub queue_depth : ℕ
  pub stats : UringblkStats
  pub latency_buckets : List ℕ
  pub backend : Backend
  pub features : ℕ

-- The memory that `copy_to_user` writes, or a fault.
abbrev pub reply : Bool → ℕ → Payload → Result ℕ × Payload
reply copies size p = if copies then (ok size, p) else (err efault, nothing)

module _ (logical_block_size : ℕ) where
  abbrev pub capacity_sectors : AdminDevice → ℕ
  capacity_sectors dev = dev.backend.capacity / logical_block_size

  -- `strncpy` into a zeroed array of 40 and 16 bytes, which leaves the last byte zero.
  unfoldable pub uringblk_cmd_identify : AdminDevice → Bool → ℕ → Result ℕ × Payload
  uringblk_cmd_identify dev copies len =
      if ltb len size_identify
      then (err einval, nothing)
      else reply copies size_identify (
          identity (record {
            model = take 39 dev.model;
            firmware = take 15 dev.firmware;
            logical_block_size = logical_block_size;
            physical_block_size = logical_block_size;
            capacity_sectors = capacity_sectors dev;
            features_bitmap = dev.features;
            queue_count = dev.nr_hw_queues;
            queue_depth = dev.queue_depth;
            max_segments = 128;
            max_segment_size = 2 ^ 20;
            dma_alignment = 4096;
            io_min = logical_block_size;
            io_opt = 64 * 1024;
            discard_granularity = 0;
            discard_max_bytes = 0;
          }))

  unfoldable pub uringblk_cmd_get_limits : AdminDevice → Bool → ℕ → Result ℕ × Payload
  uringblk_cmd_get_limits dev copies len =
      if ltb len size_limits
      then (err einval, nothing)
      else reply copies size_limits (
          limits (record {
            max_hw_sectors_kb = 4096;
            max_sectors_kb = 4096;
            nr_hw_queues = dev.nr_hw_queues;
            queue_depth = dev.queue_depth;
            max_segments = 128;
            max_segment_size = 2 ^ 20;
            dma_alignment = 4096;
            io_min = logical_block_size;
            io_opt = 64 * 1024;
            discard_granularity = 0;
            discard_max_bytes = 0;
          }))

  -- `cylinders` is a 16-bit field.
  unfoldable pub uringblk_cmd_get_geometry : AdminDevice → Bool → ℕ → Result ℕ × Payload
  uringblk_cmd_get_geometry dev copies len =
      if ltb len size_geometry
      then (err einval, nothing)
      else reply copies size_geometry (
          geometry (record {
            capacity_sectors = capacity_sectors dev;
            logical_block_size = logical_block_size;
            physical_block_size = logical_block_size;
            cylinders = capacity_sectors dev / (16 * 63) % 2 ^ 16;
            heads = 16;
            sectors_per_track = 63;
          }))

unfoldable pub uringblk_cmd_get_features : AdminDevice → Bool → ℕ → Result ℕ × Payload
uringblk_cmd_get_features dev copies len =
    if ltb len 8 then (err einval, nothing) else reply copies 8 (features dev.features)

unfoldable pub uringblk_cmd_get_stats : AdminDevice → Bool → ℕ → Result ℕ × Payload
uringblk_cmd_get_stats dev copies len =
    if ltb len size_stats
    then (err einval, nothing)
    else reply copies size_stats (
        statistics (record dev.stats {
          p50_read_latency_us = calculate_latency_percentile dev.latency_buckets 50;
          p99_read_latency_us = calculate_latency_percentile dev.latency_buckets 99;
          p50_write_latency_us = calculate_latency_percentile dev.latency_buckets 50;
          p99_write_latency_us = calculate_latency_percentile dev.latency_buckets 99;
        }))

-- `features & ~supported_features` is not zero: a bit other than 0 to 4 and 6 is set.
abbrev pub is_supported : ℕ → Bool
is_supported f = ltb f (2 ^ 7) && (f / 2 ^ 5 % 2 == 0)

-- `argument`: what `copy_from_user` reads (none: a fault).
unfoldable pub uringblk_cmd_set_features : AdminDevice → Option ℕ → ℕ → Result ℕ × AdminDevice
uringblk_cmd_set_features dev argument len =
    if ltb len 8 then (err einval, dev) else elim argument [
      | none ↦ (err efault, dev)
      | some f ↦
          if not (is_supported f) then (err einval, dev) else (ok 0, record dev { features = f })
    ]

-- What a call of `uringblk_uring_cmd` is given: the flags of its issue, the command, and whether the
-- administration lock is held or its taking is interrupted.
pub record UringCmd : Type 0 where
  pub cancel : Bool
  pub nonblock : Bool
  pub opcode : ℕ
  pub len : ℕ
  pub copies : Bool
  pub argument : Option ℕ

pub record LockState : Type 0 where
  pub locked : Bool
  pub interrupted : Bool

-- A command is refused at once, or queued for completion with a result and what was copied out.
pub data CmdOutcome : Type 0 where
  refused : Errno → CmdOutcome
  queued : Result ℕ → Payload → CmdOutcome

-- A handler that leaves the device alone.
abbrev pub answered : AdminDevice → Result ℕ × Payload → CmdOutcome × AdminDevice
answered dev r = (queued r.0 r.1, dev)

abbrev pub set_answered : Result ℕ × AdminDevice → CmdOutcome × AdminDevice
set_answered r = (queued r.0 nothing, r.1)

-- The `switch` on the opcode.
unfoldable pub dispatch : ℕ → AdminDevice → UringCmd → CmdOutcome × AdminDevice
unfolding uringblk_cmd_identify uringblk_cmd_get_limits uringblk_cmd_get_geometry
    uringblk_cmd_get_features uringblk_cmd_get_stats uringblk_cmd_set_features
dispatch lbs dev c =
    if c.opcode == 1
    then answered dev (uringblk_cmd_identify lbs dev c.copies c.len)
    else if c.opcode == 2
    then answered dev (uringblk_cmd_get_limits lbs dev c.copies c.len)
    else if c.opcode == 3
    then answered dev (uringblk_cmd_get_features dev c.copies c.len)
    else if c.opcode == 4
    then set_answered (uringblk_cmd_set_features dev c.argument c.len)
    else if c.opcode == 5
    then answered dev (uringblk_cmd_get_geometry lbs dev c.copies c.len)
    else if c.opcode == 6
    then answered dev (uringblk_cmd_get_stats dev c.copies c.len)
    else (queued (err eopnotsupp) nothing, dev)

-- The device is the file's private data; it may be missing.
unfoldable pub uringblk_uring_cmd :
    ℕ → LockState → Option AdminDevice → UringCmd → CmdOutcome × Option AdminDevice
unfolding dispatch
uringblk_uring_cmd lbs lock file c = if c.cancel then (refused ecanceled, file) else elim file [
  | none ↦ (refused enodev, none)
  | some dev ↦
      if ltb 4096 c.len
      then (refused einval, some dev)
      else if c.nonblock && lock.locked
      then (refused eagain, some dev)
      else if lock.interrupted
      then (refused erestartsys, some dev)
      else let r = dispatch lbs dev c in (r.0, some r.1)
]
