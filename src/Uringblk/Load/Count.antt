-- ===== src/Uringblk/Load/Count.antt =====
-- How many devices loading sets up.
use kvm_db.Prelude.{
  ℕ, zero, suc, ◌≤◌, ◌≡◌, refl, ◌⊎◌, inl, inr, Bool, Option, some, List, [], ◌∷◌, ◌++◌, length,
  get_or, set, drop, min, ◌==◌, if◌then◌else◌, arith,
}
use kvm_db.Prelude.Errno.{Result-cases, ok}
use kvm_db.Uringblk.Config.{one_entry, entry_end, parse_entries, parse_device_list, count_commas}
use kvm_db.Uringblk.Instance.{ModuleParams}
use kvm_db.Uringblk.Paths.{LoadEnv, DevicePaths, path_count, device_paths, device_count}

entry_end_stops : (s : List ℕ) → (get_or s (entry_end s) 0 ≡ 0) ⊎ (get_or s (entry_end s) 0 ≡ 44)
entry_end_stops [] = inl refl
entry_end_stops (c ∷ cs) = ground (arith, entry_end_stops cs)

get_or-set_zero : (s : List ℕ) (i : ℕ) → get_or (set s i 0) i 0 ≡ 0
get_or-set_zero [] i = refl
get_or-set_zero (c ∷ cs) zero = refl
get_or-set_zero (c ∷ cs) (suc i) = get_or-set_zero cs i

first-drop : (n : ℕ) (s : List ℕ) → get_or (drop n s) 0 0 ≡ get_or s n 0
first-drop zero s = refl
first-drop (suc n) [] = refl
first-drop (suc n) (c ∷ cs) = first-drop n cs

-- After an entry the text is over.
next_over : (s : List ℕ) → get_or (one_entry s).1 0 0 ≡ 0
unfolding one_entry
next_over s = elim (entry_end_stops s) [
  | inl z ↦ ground (arith, z, first-drop (entry_end s) s)
  | inr z ↦
      ground (
        arith,
        z,
        get_or-set_zero s (entry_end s),
        first-drop (entry_end s) (set s (entry_end s) 0),
      )
]

over_lem :
    (memory : ℕ → Bool) (fuel num : ℕ) (s : List ℕ) (paths : List (List ℕ))
    → get_or s 0 0 ≡ 0
    → parse_entries memory fuel num s paths ≡ ok (some paths)
unfolding parse_entries
over_lem memory zero num s paths z = refl
over_lem memory (suc fuel) num s paths z = ground (arith, z)

entries_short :
    (memory : ℕ → Bool) (fuel num : ℕ) (s : List ℕ) (list : Option (List (List ℕ)))
    → parse_entries memory fuel num s [] ≡ ok list
    → path_count list ≤ 1
unfolding parse_entries
entries_short memory zero num s list e = ground arith
entries_short memory (suc fuel) num s list e =
    let path : List ℕ = (one_entry s).0 in
    let kept : List (List ℕ) = if length path == 0 then [] else path ∷ [] in
    ground (arith, over_lem memory fuel num (one_entry s).1 kept (next_over s))

list_short :
    (copied array : Bool) (memory : ℕ → Bool) (text : List ℕ) (list : Option (List (List ℕ)))
    → parse_device_list copied array memory (some text) ≡ ok list
    → path_count list ≤ 1
unfolding parse_device_list
list_short copied array memory text list e = ground (
  arith,
  entries_short memory (suc (length text)) (suc (count_commas text)) (text ++ 0 ∷ []) list,
)

-- Whatever the list of devices says, loading sets up one device, or none where the maximum is 0.
pub one_device :
    (p : ModuleParams) (env : LoadEnv) (d : DevicePaths)
    → device_paths p env ≡ ok d
    → device_count p d ≡ min 1 p.max_devices
unfolding device_paths
one_device p env d e =
    elim (Result-cases
      (parse_device_list env.list_copied env.list_array env.entry_copied (some p.devices))) [
        | inl (x, h) ↦ ground (arith, h)
        | inr (list, h) ↦
            ground (
              arith,
              h,
              list_short env.list_copied env.list_array env.entry_copied p.devices list h,
            )
      ]
