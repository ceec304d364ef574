-- ===== src/Wal/Char/Reads.antt =====
-- Successive reads of /dev/rwal.
use kvm_db.Prelude.{
  ℕ, ◌+◌, ◌-◌, ◌≤◌, min, ◌≡◌, refl, ap, sym, ◌∙◌, true, List, [], ◌∷◌, ◌++◌, take, drop, leb,
  leb→le, arith, inl, inr, Bool-cases,
}
use kvm_db.Prelude.Slice.{take_nil, split_take, drop_past}
use kvm_db.Prelude.Word.{u32, inc32}
use kvm_db.Wal.Status.{WalStatus, response_msg, response_len}
use kvm_db.Wal.Char.{wal_char_read}

-- A user reads with the given counts, one call after the other; what the calls copied, in order.
unfoldable pub read_all : WalStatus → ℕ → List ℕ → List ℕ × WalStatus
unfolding wal_char_read
read_all s pos [] = ([], s)
read_all s pos (count ∷ counts) =
    let r = wal_char_read s count pos true in
    let rest = read_all r.status r.pos counts in (r.copied ++ rest.0, rest.1)

abbrev pub sum : List ℕ → ℕ
sum [] = 0
sum (n ∷ ns) = n + sum ns

read_at_end :
    (s : WalStatus) (counts : List ℕ) (pos : ℕ)
    → response_len ≤ pos
    → read_all s pos counts ≡ ([], s)
unfolding read_all wal_char_read
read_at_end s [] pos h = refl
read_at_end s (count ∷ counts) pos h = ground (arith, read_at_end s counts pos h)

-- Reading in any pieces gives the message from the file position on, up to the sum of the counts.
pub read_all_lem :
    (s : WalStatus) (counts : List ℕ) (pos : ℕ)
    → (read_all s pos counts).0 ≡ take (sum counts) (drop pos response_msg)
unfolding read_all wal_char_read
read_all_lem s [] pos = refl
read_all_lem s (count ∷ counts) pos =
    let to_copy = min count (response_len - pos) in
    let next = record s {
      char_read_count = inc32 s.char_read_count;
      total_bytes_read = u32 (s.total_bytes_read + to_copy);
    } in
    elim (Bool-cases (leb response_len pos)) [
      | inl e ↦ rw e (
          ap (λ (r : List ℕ × WalStatus). r.0)
            (read_at_end s counts pos (leb→le response_len pos e))
          ∙ sym (
              ap (take (count + sum counts))
                (drop_past pos response_msg (leb→le response_len pos e))
              ∙ take_nil _))
      | inr e ↦ rw e (
          ap (λ l. take to_copy (drop pos response_msg) ++ l)
            (read_all_lem next counts (pos + to_copy))
          ∙ split_take count (sum counts) pos response_msg)
    ]
