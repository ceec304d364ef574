-- ===== src/Tools/RoundTrip.antt =====
-- The data test of src/kvm_db.cc, a write and a read of the same range by the block driver's client.
use kvm_db.Prelude.{ℕ, Bool, true, false, ◌&&◌, Option, none, some, List, [], ◌∷◌, replicate, ◌==◌}
use kvm_db.Prelude.Errno.{Result, ok, err}
use kvm_db.Uringblk.Request.{UringblkDisk}
use kvm_db.Tools.UringClient.{BlkClient, RingEnv}
use kvm_db.Tools.UringIo.{read_async, write_async}

-- The kernel between the client and the disk, its page cache included: what a write of bytes and a read into a buffer at an
-- offset are completed with, the disk, and the buffer.
pub record BlockLayer : Type 0 where
  pub write_at : UringblkDisk → ℕ → List ℕ → Result ℕ × UringblkDisk
  pub read_at : UringblkDisk → ℕ → List ℕ → Result ℕ × List ℕ

abbrev pub same_bytes : List ℕ → List ℕ → Bool
same_bytes [] [] = true
same_bytes [] (y ∷ ys) = false
same_bytes (x ∷ xs) [] = false
same_bytes (x ∷ xs) (y ∷ ys) = let rest = same_bytes xs ys in x == y && rest

abbrev pub test_data : List ℕ
test_data = replicate 4096 66

-- What the program reports of its data: nothing where the write or the read fails, or whether they
-- match.
unfoldable pub data_test : RingEnv → BlkClient → BlockLayer → UringblkDisk → Option Bool
unfolding write_async read_async
data_test env c kernel d =
    let write = kernel.write_at d 0 test_data in
    let read = kernel.read_at write.1 0 (replicate 4096 0) in
    elim (write_async env c (λ offset len. write.0) 0 4096).value [
      | err e ↦ none
      | ok n ↦ elim (read_async env c (λ offset len. read.0) 0 4096).value [
        | err e ↦ none
        | ok n ↦ some (same_bytes test_data read.1)
      ]
    ]
