-- ===== src/Uringblk/Config/First.antt =====
-- Which entries of a device list are parsed.
use kvm_db.Prelude.{
  ℕ, suc, ◌≡◌, ◌≢◌, refl, ap, ◌∙◌, ◌⊎◌, inl, inr, Bool, true, Option, some, List, [], ◌∷◌, ◌++◌,
  append_assoc, length, get_or, set, drop, ◌==◌, if◌then◌else◌, arith,
}
use kvm_db.Prelude.Errno.{enomem, Result, ok, err}
use kvm_db.Uringblk.Config.{
  one_entry, entry_end, skip_blanks, c_string, trim_end, count_commas, parse_entries,
  parse_device_list,
}

-- Neither a NUL nor a comma.
abbrev pub IsEntry : List ℕ → Type 0
IsEntry [] = Unit
IsEntry (c ∷ cs) = (c ≢ 0) × (c ≢ 44) × IsEntry cs

module _ (d : ℕ) (t : List ℕ) (stops : (d ≡ 0) ⊎ (d ≡ 44)) where
  entry_end_lem : (e : List ℕ) → IsEntry e → entry_end (e ++ d ∷ t) ≡ length e
  entry_end_lem [] h = ground arith
  entry_end_lem (c ∷ cs) (a, b, h) = ground (arith, entry_end_lem cs h)

get_or_at : (d : ℕ) (t e : List ℕ) → get_or (e ++ d ∷ t) (length e) 0 ≡ d
get_or_at d t [] = refl
get_or_at d t (c ∷ cs) = get_or_at d t cs

set_at : (d : ℕ) (t e : List ℕ) → set (e ++ d ∷ t) (length e) 0 ≡ e ++ 0 ∷ t
set_at d t [] = refl
set_at d t (c ∷ cs) = ap (λ l. c ∷ l) (set_at d t cs)

drop_at : (d : ℕ) (t e : List ℕ) → drop (length e) (e ++ d ∷ t) ≡ d ∷ t
drop_at d t [] = refl
drop_at d t (c ∷ cs) = drop_at d t cs

c_string_at : (t e : List ℕ) → IsEntry e → c_string (e ++ 0 ∷ t) ≡ e
c_string_at t [] h = refl
c_string_at t (c ∷ cs) (a, b, h) = ground (arith, c_string_at t cs h)

skip_at : (t e : List ℕ) → IsEntry e → c_string (skip_blanks (e ++ 0 ∷ t)) ≡ skip_blanks e
skip_at t [] h = refl
skip_at t (c ∷ cs) (a, b, h) = ground (arith, skip_at t cs h, c_string_at t cs h)

-- What an entry at the front of the list gives.
abbrev pub first_path : (ℕ → Bool) → List ℕ → Result (Option (List (List ℕ)))
first_path memory e =
    let path = trim_end (skip_blanks e) in
    if length path == 0
    then ok (some [])
    else if memory 0
    then ok (some (path ∷ []))
    else err enomem

at_end :
    (memory : ℕ → Bool) (fuel num : ℕ) (t : List ℕ) (paths : List (List ℕ))
    → parse_entries memory (suc fuel) num (0 ∷ t) paths ≡ ok (some paths)
unfolding parse_entries
at_end memory fuel num t paths = refl

ended_at :
    (d : ℕ) (t e : List ℕ)
    → (d ≡ 0) ⊎ (d ≡ 44)
    → (if d == 44 then set (e ++ d ∷ t) (length e) 0 else e ++ d ∷ t) ≡ e ++ 0 ∷ t
ended_at d t e (inl z) = ground arith
ended_at d t e (inr z) = ground (arith, set_at d t e)

one_entry_at :
    (d : ℕ) (t e : List ℕ)
    → (d ≡ 0) ⊎ (d ≡ 44)
    → IsEntry e
    → one_entry (e ++ d ∷ t) ≡ (trim_end (skip_blanks e), 0 ∷ t)
unfolding one_entry
one_entry_at d t e stops h =
    rw
      (
        entry_end_lem d t stops e h,
        get_or_at d t e,
        ended_at d t e stops,
        get_or_at 0 t e,
        drop_at 0 t e,
        skip_at t e h,
      )
      refl

-- One round, after which the text is over.
one_round :
    (memory : ℕ → Bool) (fuel num d c : ℕ) (t cs : List ℕ)
    → (d ≡ 0) ⊎ (d ≡ 44)
    → IsEntry (c ∷ cs)
    → parse_entries memory (suc (suc fuel)) (suc num) ((c ∷ cs) ++ d ∷ t) []
      ≡ first_path memory (c ∷ cs)
unfolding parse_entries
one_round memory fuel num d c t cs stops (a, b, h) =
    let path : List ℕ = trim_end (skip_blanks (c ∷ cs)) in
    rw (one_entry_at d t (c ∷ cs) stops (a, b, h)) (ground (arith, a))

some_text :
    (memory : ℕ → Bool) (c : ℕ) (cs : List ℕ)
    → parse_device_list true true memory (some (c ∷ cs))
      ≡ parse_entries memory
          (suc (suc (length cs)))
          (suc (count_commas (c ∷ cs)))
          ((c ∷ cs) ++ 0 ∷ [])
          []
unfolding parse_device_list
some_text memory c cs = ground arith

-- Of a list that starts with a non-empty entry only that entry is parsed, given memory for the text's
-- copy and the array: whatever follows its comma, the result is that of the entry alone, which is the
-- entry without the blanks around it, or no path at all where it is blank, or ENOMEM where its copy
-- fails.
only_first :
    (memory : ℕ → Bool) (c : ℕ) (cs others : List ℕ)
    → IsEntry (c ∷ cs)
    → (parse_device_list true true memory (some ((c ∷ cs) ++ 44 ∷ others))
        ≡ first_path memory (c ∷ cs))
      × (parse_device_list true true memory (some (c ∷ cs)) ≡ first_path memory (c ∷ cs))
only_first memory c cs others h = (
  some_text memory c (cs ++ 44 ∷ others)
      ∙ ap
          (λ l.
            parse_entries memory (suc (suc (length (cs ++ 44 ∷ others))))
              (suc (count_commas ((c ∷ cs) ++ 44 ∷ others))) l [])
          (append_assoc (c ∷ cs) (44 ∷ others) (0 ∷ []))
      ∙ one_round memory (length (cs ++ 44 ∷ others)) (count_commas ((c ∷ cs) ++ 44 ∷ others)) 44 c
          (others ++ 0 ∷ []) cs (inr refl) h,
  some_text memory c cs
      ∙ one_round memory (length cs) (count_commas (c ∷ cs)) 0 c [] cs (inl refl) h,
)
