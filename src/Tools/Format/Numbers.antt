-- ===== src/Tools/Format/Numbers.antt =====
-- The numbers in the texts of src/kvm_uringblk.cc.
use kvm_db.Prelude.{
  ℕ, zero, suc, ◌+◌, ◌/◌, ◌%◌, ◌^◌, ◌<◌, ◌≡◌, refl, ap, ◌∙◌, inl, List, [], ◌∷◌, ◌++◌, length, drop,
  append-nil, ltb, if◌then◌else◌, arith,
}
use kvm_db.Prelude.Text.{digits, print_line, print_number, read_line, read_line-print_line}
use kvm_db.Tools.Format.{field}

digits-append :
    (base fuel n : ℕ) (out rest : List ℕ)
    → digits base fuel n out ++ rest ≡ digits base fuel n (out ++ rest)
unfolding digits
digits-append base zero n out rest = refl
digits-append base (suc fuel) n out rest = ground (
  arith,
  digits-append base fuel (n / base)
      ((if ltb (n % base) 10 then 48 + n % base else 87 + n % base) ∷ out) rest,
)

drop-append : (xs ys : List ℕ) → drop (length xs) (xs ++ ys) ≡ ys
drop-append [] ys = refl
drop-append (x ∷ xs) ys = drop-append xs ys

print_number-newline : (base n : ℕ) → print_number base n ++ 10 ∷ [] ≡ print_line base n
unfolding print_number print_line
print_number-newline base n = ground (arith, digits-append base 20 n [] (10 ∷ []))

-- The number of a line that ends with it.
field_lem :
    (label : List ℕ) (n : ℕ)
    → n < 2 ^ 64
    → read_line 10 0 (drop (length label) (field label n []) ++ 10 ∷ []) ≡ n
field_lem label n h =
    ap (λ l. read_line 10 0 (drop (length label) l ++ 10 ∷ []))
      (append-nil (label ++ print_number 10 n))
    ∙ ap (λ l. read_line 10 0 (l ++ 10 ∷ [])) (drop-append label (print_number 10 n))
    ∙ ap (read_line 10 0) (print_number-newline 10 n)
    ∙ read_line-print_line 10 n (inl refl) h
