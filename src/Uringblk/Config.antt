-- ===== src/Uringblk/Config.antt =====
-- The block driver's configuration, driver/uringblk_main.c: `validate_backend_config` and
-- `parse_device_list`. A text is the list of its bytes; in memory a NUL byte, 0, ends it.
pub mod First
use kvm_db.Prelude.{
  ℕ, zero, suc, ◌+◌, Bool, true, false, not, ◌&&◌, ◌||◌, Option, none, some, List, [], ◌∷◌, ◌++◌,
  length, get_or, set, drop, ◌==◌, leb, if◌then◌else◌,
}
use kvm_db.Prelude.Errno.{Errno, einval, enomem, Result, ok, err}

unfoldable pub validate_backend_config : ℕ → Option (List ℕ) → Result ℕ
validate_backend_config kind path =
    if kind == 0
    then ok 0
    else if kind == 1
    then elim path [
      | none ↦ err einval
      | some p ↦
          if length p == 0 then err einval else if leb 256 (length p) then err einval else ok 0
    ]
    else err einval

abbrev pub is_blank : ℕ → Bool
is_blank c = c == 32 || c == 9

-- `while (*end && *end != ',') end++`
abbrev pub entry_end : List ℕ → ℕ
entry_end [] = 0
entry_end (c ∷ cs) = let rest = entry_end cs in if c == 0 || c == 44 then 0 else suc rest

abbrev pub skip_blanks : List ℕ → List ℕ
skip_blanks [] = []
skip_blanks (c ∷ cs) = let rest = skip_blanks cs in if is_blank c then rest else c ∷ cs

-- The text that starts here.
abbrev pub c_string : List ℕ → List ℕ
c_string [] = []
c_string (c ∷ cs) = let rest = c_string cs in if c == 0 then [] else c ∷ rest

abbrev pub drop_blanks_at_end : List ℕ → List ℕ
drop_blanks_at_end [] = []
drop_blanks_at_end (c ∷ cs) =
    let rest = drop_blanks_at_end cs in if length rest == 0 && is_blank c then [] else c ∷ rest

-- The loop that stops at the first byte.
abbrev pub trim_end : List ℕ → List ℕ
trim_end [] = []
trim_end (c ∷ cs) = c ∷ drop_blanks_at_end cs

abbrev pub count_commas : List ℕ → ℕ
count_commas [] = 0
count_commas (c ∷ cs) = let rest = count_commas cs in if c == 44 then suc rest else rest

-- One round of the loop: the entry that starts here, ended by NUL and trimmed, and where the next one
-- starts.
unfoldable pub one_entry : List ℕ → List ℕ × List ℕ
one_entry start =
    let end = entry_end start in
    let ended = if get_or start end 0 == 44 then set start end 0 else start in
    (
      trim_end (c_string (skip_blanks ended)),
      if get_or ended end 0 == 0 then drop end ended else drop (end + 1) ended,
    )

-- The loop over the entries, on fuel. `memory n`: whether the copy of entry number `n` succeeds;
-- where it does not, the copies made so far are freed.
unfoldable pub parse_entries :
    (ℕ → Bool) → ℕ → ℕ → List ℕ → List (List ℕ) → Result (Option (List (List ℕ)))
parse_entries memory zero num start paths = ok (some paths)
parse_entries memory (suc fuel) num start paths =
    let (path, next) = one_entry start in
    let kept = if length path == 0 then paths else paths ++ path ∷ [] in
    let rest = parse_entries memory fuel num next kept in
    if get_or start 0 0 == 0 || leb num (length paths)
    then ok (some paths)
    else if not (length path == 0) && not (memory (length paths))
    then err enomem
    else rest

-- The array of paths, or none for a NULL array. `copied` and `array`: whether the text's copy and the
-- array are allocated.
unfoldable pub parse_device_list :
    Bool → Bool → (ℕ → Bool) → Option (List ℕ) → Result (Option (List (List ℕ)))
parse_device_list copied array memory none = ok none
parse_device_list copied array memory (some text) =
    if length text == 0
    then ok none
    else if not copied
    then err enomem
    else if not array
    then err enomem
    else parse_entries memory (suc (length text)) (suc (count_commas text)) (text ++ 0 ∷ []) []
