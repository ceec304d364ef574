-- ===== src/Tools/Probe/Columns.antt =====
-- The columns of the table that the probe prints.
use mathlib.Core.Path.{subst}
use native.Mathlib.Nat.{zero-add, suc-add}
use kvm_db.Prelude.{
  ℕ, zero, suc, ◌+◌, ◌-◌, ◌≤◌, ◌<◌, ◌≡◌, refl, ap, ◌∙◌, Bool, true, ◌&&◌, List, [], ◌∷◌, ◌++◌, map,
  length, length-append, length-replicate, get_or, replicate, leb, if◌then◌else◌, arith,
}
use kvm_db.Prelude.Errno.{Errno, ok}
use kvm_db.Tools.Probe.{
  get_api_version, get_vcpu_mmap_size, print_capabilities, mmap_line, Ioctl, check_extension,
  extension_line, padded_to, mark,
}
use kvm_db.Tools.Probe.Extensions.{Extension, extensions}

abbrev names_fit : List Extension → Bool
names_fit [] = true
names_fit (e ∷ es) = leb (length e.name) 35 && names_fit es

all_fit : names_fit extensions ≡ true
all_fit = refl

module _ {ℓ} {A : Type ℓ} where
  get_or-append :
      (xs ys : List A) (j : ℕ) (d : A) → get_or (xs ++ ys) (length xs + j) d ≡ get_or ys j d
  get_or-append [] ys j d = rw zero-add refl
  get_or-append (x ∷ xs) ys j d = rw suc-add (get_or-append xs ys j d)

get_or-left :
    (xs ys : List (List ℕ)) (j : ℕ) → j < length xs → get_or (xs ++ ys) j [] ≡ get_or xs j []
get_or-left [] ys j h = absurd (omega arith)
get_or-left (x ∷ xs) ys zero h = refl
get_or-left (x ∷ xs) ys (suc j) h = get_or-left xs ys j (omega arith)

place :
    (a b c h h' : List ℕ) (before rows after : List (List ℕ)) (i : ℕ)
    → i < length rows
    → get_or (a ∷ b ∷ c ∷ (before ++ h ∷ h' ∷ (rows ++ after))) (5 + length before + i) []
      ≡ get_or rows i []
place a b c h h' before rows after i less =
    let n : suc (suc (suc (length before + suc (suc i)))) ≡ 5 + length before + i = omega arith in
    subst (λ k. get_or (a ∷ b ∷ c ∷ (before ++ h ∷ h' ∷ (rows ++ after))) k [] ≡ get_or rows i []) n
      (get_or-append before (h ∷ h' ∷ (rows ++ after)) (suc (suc i)) []
        ∙ get_or-left rows after i less)

-- The row of the table at a place.
abbrev pub row : List Extension → ℕ → Extension
row es i = get_or es i (record { name = []; description = [] })

get_or-map :
    (f : Extension → List ℕ) (es : List Extension) (i : ℕ)
    → i < length es
    → (get_or (map f es) i [] ≡ f (row es i)) × (i < length (map f es))
get_or-map f [] i h = absurd (omega arith)
get_or-map f (e ∷ es) zero h = (refl, omega arith)
get_or-map f (e ∷ es) (suc i) h =
    let (same, less) = get_or-map f es i (omega arith) in (same, omega (arith, less))

length-padded_to :
    (width : ℕ) (text : List ℕ) → length text ≤ width → length (padded_to width text) ≡ width
length-padded_to width text h = omega (
  arith,
  length-append text (replicate (width - length text) 32),
  length-replicate {A = ℕ} (width - length text) 32,
)

-- The letter after the bracket of the mark.
letter :
    (supported : Bool) (rest : List ℕ)
    → get_or (32 ∷ (padded_to 8 (mark supported) ++ 32 ∷ rest)) 2 0 ≡ (if supported then 89 else 78)
unfolding replicate
letter Bool.true rest = refl
letter Bool.false rest = refl

fits_at :
    (es : List Extension) (i : ℕ)
    → names_fit es ≡ true
    → i < length es
    → length (row es i).name ≤ 35
fits_at [] i h less = absurd (omega arith)
fits_at (e ∷ es) zero h less = ground (arith, h)
fits_at (e ∷ es) (suc i) h less = fits_at es i (ground (arith, h)) (omega arith)

module _ (message : Errno → List ℕ) (cap : List ℕ → ℕ) (ioctl : Ioctl) where
  line_letter :
      (e : Extension)
      → length e.name ≤ 35
      → get_or (extension_line message cap ioctl e) 37 0
        ≡ (if check_extension ioctl (cap e.name) then 89 else 78)
  unfolding extension_line
  line_letter e h =
      let p = padded_to 35 e.name in
      let s = check_extension ioctl (cap e.name) in
      let tail = 32 ∷ (padded_to 8 (mark s) ++ 32 ∷ e.description) in
      let n : length p + 2 ≡ 37 = omega (arith, length-padded_to 35 e.name h) in
      subst (λ k. get_or (p ++ tail) k 0 ≡ (if s then 89 else 78)) n
        (get_or-append p tail 2 0 ∙ letter s e.description)

  -- Where the driver tells its version, the probe prints for each of the 100 extensions, in the order of
  -- the table and right after the heading, one line that has in its column 37 the "Y" of "[YES]" if the
  -- driver's answer for the extension is positive, and else the "N" of "[NO]": no name is longer than the
  -- first column.
  columns_lem :
      (version i : ℕ)
      → get_api_version ioctl ≡ ok version
      → i < 100
      → let start = 5 + length (mmap_line message cap ioctl (get_vcpu_mmap_size ioctl)) in
        get_or (get_or (print_capabilities message cap ioctl) (start + i) []) 37 0
        ≡ (if check_extension ioctl (cap (row extensions i).name) then 89 else 78)
  unfolding print_capabilities
  columns_lem version i e h =
      let (line, less) = get_or-map (extension_line message cap ioctl) extensions i h in
      rw e (
        ap (λ (l : List ℕ). get_or l 37 0)
          (place _ _ _ _ _ (mmap_line message cap ioctl (get_vcpu_mmap_size ioctl))
              (map (extension_line message cap ioctl) extensions) _ i less
            ∙ line)
        ∙ line_letter (row extensions i) (fits_at extensions i all_fit h))
