-- ===== src/Tools/WalClient/Driver.antt =====
-- The client over the character device of the log driver.
use kvm_db.Prelude.{
  ℕ, ◌≤◌, ◌≡◌, sym, ap, ◌∙◌, min, ◌-◌, length-take, length-drop, take_all, leb→le, leb→lt, inl, inr,
  Bool, true, some, List, length, take, drop, leb, ◌||◌, ◌==◌, Bool-cases, if◌then◌else◌, arith,
}
use kvm_db.Prelude.Errno.{Result, Result-cases, ok, err}
use kvm_db.Wal.Status.{WalStatus, response_msg, response_len}
use kvm_db.Wal.Char.{wal_char_read, wal_char_write}
use kvm_db.Tools.WalClient.{
  WalFiles, Client, read_char_device, write_char_device, read_block_device, write_block_device,
  test_char_data, test_device_operations,
}

-- The open file of the character device: the driver's status and the file's position.
pub record CharFile : Type 0 where
  pub status : WalStatus
  pub pos : ℕ

-- What the client asks of the block device, whose state is of its own.
pub record BlockFiles (B : Type 0) : Type 0 where
  pub read : B → ℕ → Result (List ℕ) × B
  pub write : B → List ℕ → Result ℕ × B

taken : (n m : ℕ) (xs : List ℕ) → length xs ≡ m → take (min n m) xs ≡ take n xs
taken n m xs e = elim (Bool-cases (leb n m)) [
  | inl h ↦ ap (λ k. take k xs) (omega (arith, leb→le n m h))
  | inr h ↦
      ap (λ k. take k xs) (omega (arith, leb→lt n m h))
      ∙ take_all m xs (omega (arith, e))
      ∙ sym (take_all n xs (omega (arith, e, leb→lt n m h)))
]

module _ (printable : ℕ → Bool) (memory copies : Bool) {B : Type 0} (block : BlockFiles B) where
  -- The files of the client where /dev/rwal is the driver's.
  abbrev pub driver_files : WalFiles (CharFile × B)
  driver_files = record {
    read_char = λ s count.
        let r = wal_char_read s.0.status count s.0.pos copies in
        (
          elim r.ret [ err e ↦ err e | ok n ↦ ok r.copied ],
          (record { status = r.status; pos = r.pos }, s.1),
        );
    write_char = λ s bytes.
        let r = wal_char_write printable s.0.status bytes s.0.pos memory copies in
        (r.ret, (record { status = r.status; pos = r.pos }, s.1));
    read_block = λ s count. let r = block.read s.1 count in (r.0, (s.0, r.1));
    write_block = λ s bytes. let r = block.write s.1 bytes in (r.0, (s.0, r.1));
  }

  write_keeps :
      (c : Client) (s : CharFile × B)
      → (write_char_device driver_files c s test_char_data).1.0.status.char_read_count
        ≡ s.0.status.char_read_count
  unfolding write_char_device wal_char_write
  write_keeps c s = ground arith

  write_passes :
      (c : Client) (s : CharFile × B) (n : ℕ)
      → (write_char_device driver_files c s test_char_data).0 ≡ ok n
      → response_len ≤ (write_char_device driver_files c s test_char_data).1.0.pos
  unfolding write_char_device wal_char_write
  write_passes c s n e = ground arith

  -- A read at the end of the file leaves the driver alone.
  read_end :
      (c : Client) (s : CharFile × B) (count : ℕ)
      → response_len ≤ s.0.pos
      → (read_char_device driver_files c s count).1 ≡ s
  unfolding read_char_device wal_char_read
  read_end c s count h = ground arith

  -- A read from an open client, where the bytes can be copied out, gives the driver's message from the
  -- file's position on, up to the count; but where that is nothing, at the end of the file or for a
  -- count of 0, it gives the whole message.
  pub read_char_lem :
      (c : Client) (s : CharFile × B) (fd count : ℕ)
      → c.char_fd ≡ some fd
      → copies ≡ true
      → (read_char_device driver_files c s count).0
        ≡ ok (
            if leb response_len s.0.pos || count == 0
            then response_msg
            else take count (drop s.0.pos response_msg))
  unfolding read_char_device wal_char_read
  read_char_lem c s fd count o copied =
      let rest = drop s.0.pos response_msg in
      let size : length rest ≡ response_len - s.0.pos =
        omega (arith, length-drop s.0.pos response_msg) in
      let same : take (min count (response_len - s.0.pos)) rest ≡ take count rest =
        taken count (response_len - s.0.pos) rest size in
      ground (arith, o, copied, same, size, length-take count rest)

  -- Testing the devices never reads from the driver, whatever the calls give and whatever the block
  -- device is: the driver's count of reads stays the same.
  pub test_reads_nothing :
      (c : Client) (s : CharFile × B)
      → (test_device_operations driver_files c s).1.0.status.char_read_count
        ≡ s.0.status.char_read_count
  unfolding test_device_operations read_block_device write_block_device
  test_reads_nothing c s =
      let wrote = write_char_device driver_files c s test_char_data in
      elim (Result-cases wrote.0) [
        | inl (e, w) ↦ ground (arith, w, write_keeps c s)
        | inr (n, w) ↦
            ground (arith, w, write_keeps c s, read_end c wrote.1 1024 (write_passes c s n w))
      ]
