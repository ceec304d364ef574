-- ===== src/Tools/UringClient.antt =====
-- The administration side of the block driver's client, `UringBlkDevice` of src/kvm_uringblk.cc. The
-- structures that it reads are lists of bytes.
pub mod Unreachable
use kvm_db.Prelude.{
  ℕ, ◌+◌, ◌-◌, ◌*◌, ◌/◌, ◌%◌, ◌^◌, min, Bool, true, false, not, Option, none, some, List, [], ◌∷◌,
  length, take, drop, replicate, ltb, ◌==◌, if◌then◌else◌,
}
use kvm_db.Prelude.Splice.{splice}
use kvm_db.Prelude.Errno.{Errno, enomem, ebadf, e2big, Result, ok, err}
use kvm_db.Uringblk.Abi.{size_identify, size_limits, size_geometry, size_stats}

-- The class's descriptor, none for -1, with its path, and the number of descriptors open.
pub record BlkClient : Type 0 where
  pub fd : Option ℕ
  pub path : List ℕ
  pub open_fds : ℕ

-- What liburing's calls give, in their order; `poll_init` is the first call where one with polling is
-- tried.
pub record RingEnv : Type 0 where
  pub poll_init : Option Errno
  pub queue_init : Option Errno
  pub get_sqe : Bool
  pub submit : Option Errno
  pub wait_cqe : Option Errno

-- `struct uringblk_ucmd_hdr`
pub record UcmdHdr : Type 0 where
  pub abi_major : ℕ
  pub abi_minor : ℕ
  pub opcode : ℕ
  pub flags : ℕ
  pub payload_len : ℕ

-- The 16 bytes of the submission entry that the driver reads, `struct uringblk_uring_cmd`.
pub record UringCmdArea : Type 0 where
  pub opcode : ℕ
  pub flags : ℕ
  pub len : ℕ
  pub addr : ℕ

-- The buffer of a command: its header and its 4096 bytes of data.
pub record CmdBuffer : Type 0 where
  pub header : UcmdHdr
  pub bytes : List ℕ

-- What a call gives, and the number of rings that are open.
pub record Called {ℓ} (A : Type ℓ) : Type ℓ where
  pub value : Result A
  pub rings : ℕ

-- On the way out where no ring was opened.
abbrev pub called {ℓ} : {A : Type ℓ} → Result A → Called A
called value = record { value = value; rings = 0 }

-- The same on the way out with a ring that is open.
abbrev pub held {ℓ} : {A : Type ℓ} → Result A → Called A
held value = record { value = value; rings = 1 }

-- `io_uring_queue_exit`
abbrev pub queue_exit {ℓ} : {A : Type ℓ} → Called A → Called A
queue_exit c = record c { rings = c.rings - 1 }

-- On an open ring: from `io_uring_get_sqe` on; the value is the completion's result.
unfoldable pub ring_call : RingEnv → Result ℕ → Called ℕ
ring_call env res = if not env.get_sqe then queue_exit (held (err enomem)) else elim env.submit [
  | some e ↦ queue_exit (held (err e))
  | none ↦ elim env.wait_cqe [ some e ↦ queue_exit (held (err e)) | none ↦ queue_exit (held res) ]
]

-- The code outside the sources: what `io_uring_prep_rw` leaves in the area of the submission entry
-- that the driver reads, given the buffer whose address it is told; what the kernel completes the
-- command with and leaves in the buffer's data; and the bytes that the buffer holds at first.
pub record CmdPath : Type 0 where
  pub prep_rw : CmdBuffer → UringCmdArea
  pub kernel : UringCmdArea → CmdBuffer → Result ℕ × List ℕ
  pub stack : List ℕ

abbrev data_size : ℕ
data_size = 4096

-- The buffer as it is submitted.
unfoldable pub command_buffer : List ℕ → ℕ → List ℕ → CmdBuffer
unfolding splice
command_buffer stack opcode payload = record {
  header = record {
    abi_major = 1;
    abi_minor = 0;
    opcode = opcode;
    flags = 0;
    payload_len = length payload;
  };
  bytes = splice 0 payload stack;
}

-- The value is what is copied into the response.
unfoldable pub send_uring_cmd : RingEnv → CmdPath → ℕ → List ℕ → ℕ → Called (List ℕ)
unfolding ring_call
send_uring_cmd env path opcode payload response_len =
    let buffer = command_buffer path.stack opcode payload in
    let answer = path.kernel (path.prep_rw buffer) buffer in
    let completed = ring_call env answer.0 in
    elim env.queue_init [
      | some e ↦ called (err e)
      | none ↦
          if ltb data_size (length payload)
          then queue_exit (held (err e2big))
          else elim completed.value [
            | err e ↦ record { value = err e; rings = completed.rings }
            | ok n ↦
                if ltb data_size response_len
                then record { value = err e2big; rings = completed.rings }
                else record {
                  value = ok (take (min response_len n) answer.1);
                  rings = completed.rings;
                }
          ]
    ]

-- A little-endian number.
abbrev little_endian : List ℕ → ℕ
little_endian [] = 0
little_endian (b ∷ bs) = b + 256 * little_endian bs

unfoldable pub close_device : BlkClient → BlkClient
close_device c = elim c.fd [
  | none ↦ c
  | some fd ↦ record { fd = none; path = []; open_fds = c.open_fds - 1 }
]

-- `opened`: what `open` gives.
unfoldable pub open_device : Result ℕ → List ℕ → BlkClient → Option Errno × BlkClient
unfolding close_device
open_device opened path c =
    let closed = close_device c in
    elim opened [
      | err e ↦ (some e, record closed { fd = none })
      | ok fd ↦ (none, record { fd = some fd; path = path; open_fds = closed.open_fds + 1 })
    ]

module _ (env : RingEnv) (path : CmdPath) (c : BlkClient) where
  -- A command without a payload, whose response is put over a zeroed structure.
  abbrev pub query : ℕ → ℕ → Called (List ℕ)
  query opcode size = elim c.fd [
    | none ↦ called (err ebadf)
    | some fd ↦
        let r = send_uring_cmd env path opcode [] size in
        elim r.value [
          | err e ↦ record { value = err e; rings = r.rings }
          | ok bytes ↦ record { value = ok (splice 0 bytes (replicate size 0)); rings = r.rings }
        ]
  ]

  unfoldable pub identify : Called (List ℕ)
  identify = query 1 size_identify

  unfoldable pub get_limits : Called (List ℕ)
  get_limits = query 2 size_limits

  unfoldable pub get_geometry : Called (List ℕ)
  get_geometry = query 5 size_geometry

  unfoldable pub get_stats : Called (List ℕ)
  get_stats = query 6 size_stats

  -- A field of a structure that was read.
  abbrev number_at : ℕ → ℕ → Called (List ℕ) → Called ℕ
  number_at offset size r = record {
    value = elim r.value [
      | err e ↦ err e
      | ok bytes ↦ ok (little_endian (take size (drop offset bytes)))
    ];
    rings = r.rings;
  }

  unfoldable pub get_features : Called ℕ
  get_features = number_at 0 8 (query 3 8)

  -- The eight bytes of the word.
  unfoldable pub set_features : List ℕ → Called (List ℕ)
  set_features features = elim c.fd [
    | none ↦ called (err ebadf)
    | some fd ↦ send_uring_cmd env path 4 features 0
  ]

  unfoldable pub get_capacity_sectors : Called ℕ
  unfolding identify
  get_capacity_sectors = number_at 64 8 identify

  unfoldable pub get_logical_block_size : Called ℕ
  unfolding identify
  get_logical_block_size = number_at 56 4 identify

  -- A feature's flag by the number of its bit.
  unfoldable pub supports_feature : ℕ → Called Bool
  unfolding get_features
  supports_feature bit = record {
    value = elim get_features.value [
      | err e ↦ err e
      | ok features ↦ ok (features / 2 ^ bit % 2 == 1)
    ];
    rings = get_features.rings;
  }
