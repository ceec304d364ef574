-- ===== src/Wal/Proc.antt =====
-- The report under /proc/wal_driver, `wal_proc_show` of driver/wal_driver_main.c.
use kvm_db.Prelude.{ℕ, ◌≡◌, refl, List, [], ◌∷◌, ◌++◌, drop, map, inl, arith}
use kvm_db.Prelude.Text.{codes, print_line, read_line, read_line-print_line}
use kvm_db.Wal.Status.{WalStatus, IsStatus}

-- The lines of the report; the mode is never negative.
unfoldable pub wal_proc_show : WalStatus → List (List ℕ)
wal_proc_show s =
    (codes "WAL Driver Statistics" ++ 10 ∷ [])
    ∷ (codes "=====================" ++ 10 ∷ [])
    ∷ (codes "Character device reads:  " ++ print_line 10 s.char_read_count)
    ∷ (codes "Character device writes: " ++ print_line 10 s.char_write_count)
    ∷ (codes "Block device reads:      " ++ print_line 10 s.block_read_count)
    ∷ (codes "Block device writes:     " ++ print_line 10 s.block_write_count)
    ∷ (codes "Total bytes read:        " ++ print_line 10 s.total_bytes_read)
    ∷ (codes "Total bytes written:     " ++ print_line 10 s.total_bytes_written)
    ∷ (codes "Current mode:            " ++ print_line 10 s.current_mode)
    ∷ []

-- The number after a line's label, which is 25 characters long.
abbrev pub labelled : List ℕ → ℕ
labelled line = read_line 10 0 (drop 25 line)

-- The numbers in the report are the counters and the mode, in this order, for a driver whose counters
-- are 32-bit numbers and whose mode is one of the three.
pub proc_show_lem :
    (s : WalStatus)
    → IsStatus s
    → map labelled (drop 2 (wal_proc_show s))
      ≡ s.char_read_count ∷ s.char_write_count ∷ s.block_read_count ∷ s.block_write_count
        ∷ s.total_bytes_read ∷ s.total_bytes_written ∷ s.current_mode ∷ []
unfolding wal_proc_show
proc_show_lem s v =
    rw
      (
        read_line-print_line 10 s.char_read_count (inl refl) (omega (arith, v.reads)),
        read_line-print_line 10 s.char_write_count (inl refl) (omega (arith, v.writes)),
        read_line-print_line 10 s.block_read_count (inl refl) (omega (arith, v.block_reads)),
        read_line-print_line 10 s.block_write_count (inl refl) (omega (arith, v.block_writes)),
        read_line-print_line 10 s.total_bytes_read (inl refl) (omega (arith, v.bytes_read)),
        read_line-print_line 10 s.total_bytes_written (inl refl) (omega (arith, v.bytes_written)),
        read_line-print_line 10 s.current_mode (inl refl) (omega (arith, v.mode)),
      )
      refl
