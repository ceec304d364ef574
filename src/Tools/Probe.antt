-- ===== src/Tools/Probe.antt =====
-- `KVM_probe` of src/kvm_probe.cc and include/kvm_probe.h beyond its initialisation: what it asks of
-- /dev/kvm and what it prints.
pub mod Extensions
pub mod Columns
use kvm_db.Prelude.{
  ℕ, ◌-◌, Bool, true, false, Option, none, some, List, [], ◌∷◌, ◌++◌, length, replicate, map, ltb,
  if◌then◌else◌,
}
use kvm_db.Prelude.Errno.{Errno, Result, ok, err}
use kvm_db.Prelude.Text.{codes, print_number}
use kvm_db.Tools.Main.{KvmProbe}
use kvm_db.Tools.Probe.Extensions.{Extension, extensions}

pub data KvmRequest : Type 0 where
  kvm_get_api_version kvm_check_extension kvm_get_vcpu_mmap_size : KvmRequest

-- `ioctl` on the probe's descriptor: a number that is not negative, or errno.
abbrev pub Ioctl : Type 0
Ioctl = KvmRequest → ℕ → Result ℕ

unfoldable pub get_api_version : Ioctl → Result ℕ
get_api_version ioctl = ioctl kvm_get_api_version 0

unfoldable pub check_extension : Ioctl → ℕ → Bool
check_extension ioctl extension = elim (ioctl kvm_check_extension extension) [
  | ok n ↦ ltb 0 n
  | err e ↦ false
]

unfoldable pub get_vcpu_mmap_size : Ioctl → Result ℕ
get_vcpu_mmap_size ioctl = ioctl kvm_get_vcpu_mmap_size 0

-- `operator=` for another probe: both probes afterwards, and the descriptor that is closed.
unfoldable pub move_probe : KvmProbe → KvmProbe → KvmProbe × KvmProbe × Option ℕ
move_probe this other = (record { kvm_fd = other.kvm_fd }, record { kvm_fd = none }, this.kvm_fd)

-- `{:<width}`
abbrev pub padded_to : ℕ → List ℕ → List ℕ
padded_to width text = text ++ replicate (width - length text) 32

abbrev pub mark : Bool → List ℕ
mark supported = if supported then codes "[YES]" else codes "[NO]"

-- A line is a text without its newline. `message` is what `std::error_code` says of an error, and `cap`
-- the value of a macro of linux/kvm.h.
module _ (message : Errno → List ℕ) (cap : List ℕ → ℕ) (ioctl : Ioctl) where
  unfoldable pub extension_line : Extension → List ℕ
  unfolding check_extension
  extension_line e =
      padded_to 35 e.name
      ++ 32 ∷ (padded_to 8 (mark (check_extension ioctl (cap e.name))) ++ 32 ∷ e.description)

  -- A number that is printed if it is positive.
  unfoldable pub numeric_line : List ℕ → List ℕ → List ℕ → List (List ℕ)
  unfolding print_number
  numeric_line before name after = elim (ioctl kvm_check_extension (cap name)) [
    | ok n ↦ if ltb 0 n then (before ++ print_number 10 n ++ after) ∷ [] else []
    | err e ↦ []
  ]

  unfoldable pub numeric_lines : List (List ℕ)
  unfolding numeric_line
  numeric_lines =
      numeric_line (codes "Recommended max VCPUs: ") (codes "KVM_CAP_NR_VCPUS") []
      ++ numeric_line (codes "Hard limit max VCPUs: ") (codes "KVM_CAP_MAX_VCPUS") []
      ++ numeric_line (codes "Max memory slots: ") (codes "KVM_CAP_NR_MEMSLOTS") []
      ++ numeric_line (codes "TSC frequency: ") (codes "KVM_CAP_GET_TSC_KHZ") (codes " kHz")

  abbrev pub mmap_line : Result ℕ → List (List ℕ)
  mmap_line (ok size) =
      (codes "VCPU mmap size: " ++ print_number 10 size ++ codes " bytes") ∷ [] ∷ []
  mmap_line (err e) = []

  -- What is printed, given the version.
  unfoldable pub capability_lines : Result ℕ → List (List ℕ)
  unfolding get_vcpu_mmap_size print_number extension_line numeric_lines
  capability_lines (err e) =
      codes "=== KVM Capabilities ==="
      ∷ []
      ∷ (codes "Failed to get API version: " ++ message e)
      ∷ []
  capability_lines (ok version) =
      codes "=== KVM Capabilities ==="
      ∷ []
      ∷ (codes "API Version: " ++ print_number 10 version)
      ∷ (mmap_line (get_vcpu_mmap_size ioctl)
          ++ (codes "Supported Extensions:"
              ∷ codes "---------------------"
              ∷ (map extension_line extensions
                  ++ ([]
                      ∷ codes "Numeric Capabilities:"
                      ∷ codes "--------------------"
                      ∷ numeric_lines))))

  unfoldable pub print_capabilities : List (List ℕ)
  unfolding get_api_version capability_lines
  print_capabilities = capability_lines (get_api_version ioctl)
