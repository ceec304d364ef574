-- ===== src/Uringblk/Backend.antt =====
-- The backends' state and the virtual backend of driver/uringblk_main.c, an array of bytes.
pub mod Memory
use kvm_db.Prelude.{
  ℕ, ◌+◌, ◌-◌, ◌^◌, Option, none, some, Bool, true, false, not, List, [], ◌∷◌, length, replicate,
  take, drop, ltb, ◌==◌, if◌then◌else◌,
}
use kvm_db.Prelude.Word.{u64}
use kvm_db.Prelude.Splice.{splice}
use kvm_db.Prelude.Errno.{Errno, einval, enomem, Result, ok, err}

pub data BackendType : Type 0 where
  backend_virtual backend_device : BackendType

-- `struct uringblk_backend`. `private_data`: the memory of a virtual backend; for a device, a handle
-- on the opened device with the bytes that it holds.
pub record Backend : Type 0 where
  pub kind : BackendType
  pub private_data : Option (List ℕ)
  pub capacity : ℕ

-- `pos + len > backend->capacity`, in 64 bits
abbrev pub past_end : Backend → ℕ → ℕ → Bool
past_end b pos len = ltb b.capacity (u64 (pos + len))

-- `memory`: whether `vzalloc` succeeds.
unfoldable pub virtual_backend_init : Backend → ℕ → Bool → Result ℕ × Backend
virtual_backend_init b capacity memory =
    if capacity == 0
    then (err einval, b)
    else if ltb (2 ^ 64 - 1) capacity
    then (err einval, b)
    else if not memory
    then (err enomem, b)
    else (
      ok 0,
      record {
        kind = backend_virtual;
        private_data = some (replicate capacity 0);
        capacity = capacity;
      },
    )

unfoldable pub virtual_backend_cleanup : Backend → Backend
virtual_backend_cleanup b = record b { private_data = none }

-- The result and the buffer.
unfoldable pub virtual_backend_read : Backend → ℕ → List ℕ → ℕ → Result ℕ × List ℕ
unfolding splice
virtual_backend_read b pos buf len = elim b.private_data [
  | none ↦ (err einval, buf)
  | some bytes ↦
      if past_end b pos len
      then (err einval, buf)
      else (ok 0, splice 0 (take len (drop pos bytes)) buf)
]

unfoldable pub virtual_backend_write : Backend → ℕ → List ℕ → ℕ → Result ℕ × Backend
unfolding splice
virtual_backend_write b pos buf len = elim b.private_data [
  | none ↦ (err einval, b)
  | some bytes ↦
      if past_end b pos len
      then (err einval, b)
      else (ok 0, record b { private_data = some (splice pos (take len buf) bytes) })
]

unfoldable pub virtual_backend_flush : Backend → Result ℕ
virtual_backend_flush b = ok 0

unfoldable pub virtual_backend_discard : Backend → ℕ → ℕ → Result ℕ × Backend
unfolding splice
virtual_backend_discard b pos len = elim b.private_data [
  | none ↦ (err einval, b)
  | some bytes ↦
      if past_end b pos len
      then (err einval, b)
      else (ok 0, record b { private_data = some (splice pos (replicate len 0) bytes) })
]
