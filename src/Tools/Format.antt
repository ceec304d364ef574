-- ===== src/Tools/Format.antt =====
-- The texts that src/kvm_uringblk.cc makes of the driver's answers. A text is the list of its lines, which
-- stand with a newline between two of them.
pub mod Numbers
use kvm_db.Prelude.{
  ℕ, ◌+◌, ◌-◌, ◌*◌, ◌^◌, List, [], ◌∷◌, ◌++◌, length, take, replicate, ◌==◌, if◌then◌else◌,
}
use kvm_db.Prelude.Word.{u64}
use kvm_db.Prelude.Text.{codes, print_number}
use kvm_db.Uringblk.Config.{c_string}
use kvm_db.Uringblk.Abi.{Identify, Limits, Geometry}
use kvm_db.Tools.Features.{padded}
use kvm_db.Uringblk.Request.{UringblkStats}

-- `label`, `{}` and `unit`
abbrev pub field : List ℕ → ℕ → List ℕ → List ℕ
field label n unit = label ++ print_number 10 n ++ unit

-- `{:.ns}` of an array of `n` bytes
abbrev pub text_of : ℕ → List ℕ → List ℕ
text_of n bytes = take n (c_string bytes)

-- "μs" in UTF-8
abbrev pub microseconds : List ℕ
microseconds = 32 ∷ 206 ∷ 188 ∷ 115 ∷ []

-- `two_decimals n factor divisor`: what `{:.2f}` gives for `n * factor / divisor` in floating point.
module _ (two_decimals : ℕ → ℕ → ℕ → List ℕ) where
  abbrev pub capacity_line : ℕ → ℕ → List ℕ
  capacity_line sectors block_size =
      field (codes "  Capacity: ") sectors (codes " sectors (")
      ++ two_decimals (u64 (sectors * block_size)) 1 (2 ^ 30)
      ++ codes " GB)"

  unfoldable pub format_uringblk_identify : Identify → List (List ℕ)
  unfolding print_number
  format_uringblk_identify info =
      (codes "  Model: " ++ text_of 40 info.model)
      ∷ (codes "  Firmware: " ++ text_of 16 info.firmware)
      ∷ field (codes "  Logical Block Size: ") info.logical_block_size (codes " bytes")
      ∷ field (codes "  Physical Block Size: ") info.physical_block_size (codes " bytes")
      ∷ capacity_line info.capacity_sectors info.logical_block_size
      ∷ (codes "  Features: 0x" ++ padded (print_number 16 info.features_bitmap))
      ∷ field (codes "  Queue Count: ") info.queue_count []
      ∷ field (codes "  Queue Depth: ") info.queue_depth []
      ∷ field (codes "  Max Segments: ") info.max_segments []
      ∷ field (codes "  Max Segment Size: ") info.max_segment_size (codes " bytes")
      ∷ field (codes "  DMA Alignment: ") info.dma_alignment []
      ∷ field (codes "  IO Min: ") info.io_min []
      ∷ field (codes "  IO Opt: ") info.io_opt []
      ∷ field (codes "  Discard Granularity: ") info.discard_granularity []
      ∷ field (codes "  Discard Max: ") info.discard_max_bytes (codes " bytes")
      ∷ []

  unfoldable pub format_uringblk_geometry : Geometry → List (List ℕ)
  unfolding print_number
  format_uringblk_geometry geo =
      capacity_line geo.capacity_sectors geo.logical_block_size
      ∷ field (codes "  Logical Block Size: ") geo.logical_block_size (codes " bytes")
      ∷ field (codes "  Physical Block Size: ") geo.physical_block_size (codes " bytes")
      ∷ field (codes "  Cylinders: ") geo.cylinders []
      ∷ field (codes "  Heads: ") geo.heads []
      ∷ field (codes "  Sectors per Track: ") geo.sectors_per_track []
      ∷ []

  -- An amount with its size in MB, of units of `factor` bytes.
  abbrev pub amount : List ℕ → ℕ → ℕ → List ℕ
  amount label n factor =
      field label n (codes " (") ++ two_decimals n factor (2 ^ 20) ++ codes " MB)"

  unfoldable pub format_uringblk_stats : UringblkStats → List (List ℕ)
  unfolding print_number
  format_uringblk_stats stats =
      codes "  Operations:"
      ∷ field (codes "    Read Ops: ") stats.read_ops []
      ∷ field (codes "    Write Ops: ") stats.write_ops []
      ∷ field (codes "    Flush Ops: ") stats.flush_ops []
      ∷ field (codes "    Discard Ops: ") stats.discard_ops []
      ∷ codes "  Data Transfer:"
      ∷ amount (codes "    Read Sectors: ") stats.read_sectors 512
      ∷ amount (codes "    Write Sectors: ") stats.write_sectors 512
      ∷ amount (codes "    Read Bytes: ") stats.read_bytes 1
      ∷ amount (codes "    Write Bytes: ") stats.write_bytes 1
      ∷ codes "  Performance:"
      ∷ field (codes "    Queue Full Events: ") stats.queue_full_events []
      ∷ field (codes "    Media Errors: ") stats.media_errors []
      ∷ field (codes "    Retries: ") stats.retries []
      ∷ field (codes "    P50 Read Latency: ") stats.p50_read_latency_us microseconds
      ∷ field (codes "    P99 Read Latency: ") stats.p99_read_latency_us microseconds
      ∷ field (codes "    P50 Write Latency: ") stats.p50_write_latency_us microseconds
      ∷ field (codes "    P99 Write Latency: ") stats.p99_write_latency_us microseconds
      ∷ []

unfoldable pub format_uringblk_limits : Limits → List (List ℕ)
unfolding print_number
format_uringblk_limits limits =
    field (codes "  Max HW Sectors: ") limits.max_hw_sectors_kb (codes " KB")
    ∷ field (codes "  Max Sectors: ") limits.max_sectors_kb (codes " KB")
    ∷ field (codes "  HW Queues: ") limits.nr_hw_queues []
    ∷ field (codes "  Queue Depth: ") limits.queue_depth []
    ∷ field (codes "  Max Segments: ") limits.max_segments []
    ∷ field (codes "  Max Segment Size: ") limits.max_segment_size (codes " bytes")
    ∷ field (codes "  DMA Alignment: ") limits.dma_alignment []
    ∷ field (codes "  IO Min: ") limits.io_min []
    ∷ field (codes "  IO Opt: ") limits.io_opt []
    ∷ field (codes "  Discard Granularity: ") limits.discard_granularity []
    ∷ field (codes "  Discard Max: ") limits.discard_max_bytes (codes " bytes")
    ∷ []
