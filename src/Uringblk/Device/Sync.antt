-- ===== src/Uringblk/Device/Sync.antt =====
-- The operations of the device backend that wait for the device, driver/uringblk_main.c.
use kvm_db.Prelude.{ℕ, ◌/◌, ◌^◌, min, not, Option, none, some, List, [], take, if◌then◌else◌}
use kvm_db.Prelude.Splice.{splice}
use kvm_db.Prelude.Errno.{Errno, einval, enomem, eio, Result, ok, err}
use kvm_db.Uringblk.Backend.{Backend, past_end}
use kvm_db.Uringblk.Request.{BlkStatus, ReqOp, op_read, op_write, op_flush}
use kvm_db.Uringblk.Device.{AsyncEnv, page_size}

-- A bio: its first sector, the length of its page vector and the page's content for a write.
pub record Bio : Type 0 where
  pub op : ReqOp
  pub sector : ℕ
  pub bv_len : ℕ
  pub page : List ℕ

-- The device under the backend: the status with which it completes a bio and the page as it leaves
-- it; `blk_status_to_errno`, through which `submit_bio_wait` gives that status; and what
-- `blkdev_issue_discard` gives for a first sector and a number of sectors.
pub record BioDevice : Type 0 where
  pub complete : Bio → BlkStatus × List ℕ
  pub blk_status_to_errno : BlkStatus → Option Errno
  pub discard : ℕ → ℕ → Option Errno

-- A call's result, the buffer after it and the bio that it submitted.
pub record Waited : Type 0 where
  pub result : Result ℕ
  pub buffer : List ℕ
  pub submitted : Option Bio

abbrev pub as_result : Option Errno → Result ℕ
as_result none = ok 0
as_result (some e) = err e

abbrev pub refused : List ℕ → Errno → Waited
refused buf e = record { result = err e; buffer = buf; submitted = none }

-- The guards that read and write share.
abbrev pub page_guarded : AsyncEnv → Backend → ℕ → ℕ → List ℕ → Waited → Waited
page_guarded env b pos len buf done = elim b.private_data [
  | none ↦ refused buf einval
  | some handle ↦
      if past_end b pos len
      then refused buf einval
      else if not env.page
      then refused buf enomem
      else if not env.added
      then refused buf eio
      else done
]

unfoldable pub device_backend_read : AsyncEnv → BioDevice → Backend → ℕ → List ℕ → ℕ → Waited
unfolding splice
device_backend_read env dev b pos buf len =
    let bio : Bio = record {
      op = op_read;
      sector = pos / 2 ^ 9;
      bv_len = min len page_size;
      page = [];
    } in
    let (status, page) = dev.complete bio in
    page_guarded env b pos len buf (elim (dev.blk_status_to_errno status) [
      | none ↦ record {
        result = ok 0;
        buffer = splice 0 (take (min len page_size) page) buf;
        submitted = some bio;
      }
      | some e ↦ record { result = err e; buffer = buf; submitted = some bio }
    ])

unfoldable pub device_backend_write : AsyncEnv → BioDevice → Backend → ℕ → List ℕ → ℕ → Waited
device_backend_write env dev b pos buf len =
    let bio : Bio = record {
      op = op_write;
      sector = pos / 2 ^ 9;
      bv_len = min len page_size;
      page = take (min len page_size) buf;
    } in
    page_guarded env b pos len buf (record {
      result = as_result (dev.blk_status_to_errno (dev.complete bio).0);
      buffer = buf;
      submitted = some bio;
    })

unfoldable pub device_backend_flush : BioDevice → Backend → Waited
device_backend_flush dev b = elim b.private_data [
  | none ↦ refused [] einval
  | some handle ↦
      let bio : Bio = record { op = op_flush; sector = 0; bv_len = 0; page = [] } in
      record {
        result = as_result (dev.blk_status_to_errno (dev.complete bio).0);
        buffer = [];
        submitted = some bio;
      }
]

unfoldable pub device_backend_discard : BioDevice → Backend → ℕ → ℕ → Result ℕ
device_backend_discard dev b pos len = elim b.private_data [
  | none ↦ err einval
  | some handle ↦
      if past_end b pos len then err einval else as_result (dev.discard (pos / 512) (len / 512))
]
