-- ===== src/Wal/Block/Legacy.antt =====
-- The request function that kernels before 5.9 call, `wal_block_request` of driver/wal_driver_main.c.
use mathlib.Core.Path.{subst}
use kvm_db.Prelude.{
  ℕ, ◌*◌, ◌≡◌, refl, ap, inl, inr, Bool-cases, Bool, true, false, List, [], ◌∷◌, ◌++◌, ◌+◌, length,
  if◌then◌else◌,
}
use kvm_db.Prelude.Word.{u32, u64, inc32}
use kvm_db.Wal.Block.{WalDisk, block_size, fill, store, segment, segments, wal_block_submit_bio}

-- A fetched request: whether it is of the file system's kind, its direction and first sector, and the
-- `blk_rq_bytes` bytes at `bio_data`.
pub record LegacyRequest : Type 0 where
  pub filesystem : Bool
  pub write : Bool
  pub sector : ℕ
  pub buffer : List ℕ

-- One round of the loop: whether the request is ended with success, its buffer and the disk.
unfoldable pub legacy_round : WalDisk → LegacyRequest → (Bool × List ℕ) × WalDisk
legacy_round d r =
    let offset = u64 (r.sector * block_size) in
    let s = d.status in
    let filled = fill (length r.buffer) 0 r.buffer in
    elim r.filesystem [
      | false ↦ ((false, r.buffer), d)
      | true ↦ elim r.write [
        | true ↦ (
          (true, r.buffer),
          record {
            block_data = store offset r.buffer d.block_data;
            status = record s {
              block_write_count = inc32 s.block_write_count;
              total_bytes_written = u32 (s.total_bytes_written + length r.buffer);
            };
          },
        )
        | false ↦ (
          (true, filled),
          record {
            block_data = store offset filled d.block_data;
            status = record s {
              block_read_count = inc32 s.block_read_count;
              total_bytes_read = u32 (s.total_bytes_read + length r.buffer);
            };
          },
        )
      ]
    ]

-- The requests in the order in which `blk_fetch_request` gives them.
unfoldable pub wal_block_request : WalDisk → List LegacyRequest → List (Bool × List ℕ) × WalDisk
wal_block_request d [] = ([], d)
wal_block_request d (r ∷ rs) =
    let one = legacy_round d r in let rest = wal_block_request one.1 rs in (one.0 ∷ rest.0, rest.1)

-- The same requests as one bio of one segment each.
abbrev pub as_bio : WalDisk → LegacyRequest → List (List ℕ) × WalDisk
as_bio d r =
    if r.filesystem
    then wal_block_submit_bio d r.write r.sector (r.buffer ∷ [])
    else (r.buffer ∷ [], d)

abbrev pub as_bios : WalDisk → List LegacyRequest → List (List ℕ) × WalDisk
as_bios d [] = ([], d)
as_bios d (r ∷ rs) =
    let one = as_bio d r in let rest = as_bios one.1 rs in (one.0 ++ rest.0, rest.1)

abbrev pub buffers_of : List (Bool × List ℕ) → List (List ℕ)
buffers_of [] = []
buffers_of (r ∷ rs) = r.1 ∷ buffers_of rs

round_as_bio :
    (d : WalDisk) (r : LegacyRequest)
    → ((legacy_round d r).0.1 ∷ [], (legacy_round d r).1) ≡ as_bio d r
unfolding legacy_round wal_block_submit_bio segments segment
round_as_bio d r = elim (Bool-cases r.filesystem) [
  | inr f ↦ simp (legacy_round, f)
  | inl f ↦ elim (Bool-cases r.write) [
    | inl w ↦ simp (legacy_round, segment, f, w)
    | inr w ↦ simp (legacy_round, segment, f, w)
  ]
]

-- For requests of one segment each, the request function of the older kernels does what `submit_bio`
-- of the newer ones does: it gives the same buffers and leaves the same disk, where `submit_bio` is
-- called for the requests of the file system's kind, in their order.
pub legacy_as_bios :
    (d : WalDisk) (rs : List LegacyRequest)
    → (buffers_of (wal_block_request d rs).0, (wal_block_request d rs).1) ≡ as_bios d rs
unfolding wal_block_request
legacy_as_bios d [] = refl
legacy_as_bios d (r ∷ rs) =
    let one = legacy_round d r in
    subst
      (λ (b : List (List ℕ) × WalDisk).
        ◌≡◌ {A = List (List ℕ) × WalDisk}
          (one.0.1 ∷ buffers_of (wal_block_request one.1 rs).0, (wal_block_request one.1 rs).1)
          (b.0 ++ (as_bios b.1 rs).0, (as_bios b.1 rs).1))
      (round_as_bio d r)
      (ap (λ (x : List (List ℕ) × WalDisk). (one.0.1 ∷ x.0, x.1)) (legacy_as_bios one.1 rs))
