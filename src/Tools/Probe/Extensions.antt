-- ===== src/Tools/Probe/Extensions.antt =====
-- The extensions that `KVM_probe::print_capabilities` of src/kvm_probe.cc asks for.
use kvm_db.Prelude.{ℕ, List, [], ◌∷◌}
use kvm_db.Prelude.Text.{codes}

-- `struct Extension`; its number is the value of the macro that `name` spells.
pub record Extension : Type 0 where
  pub name : List ℕ
  pub description : List ℕ

abbrev pub extensions : List Extension
extensions =
    record { name = codes "KVM_CAP_IRQCHIP"; description = codes "In-kernel interrupt controller" }
    ∷ record { name = codes "KVM_CAP_HLT"; description = codes "HLT instruction support" }
    ∷ record {
      name = codes "KVM_CAP_MMU_SHADOW_CACHE_CONTROL";
      description = codes "MMU shadow cache control";
    }
    ∷ record { name = codes "KVM_CAP_USER_MEMORY"; description = codes "User memory regions" }
    ∷ record { name = codes "KVM_CAP_SET_TSS_ADDR"; description = codes "TSS address setting" }
    ∷ record { name = codes "KVM_CAP_VAPIC"; description = codes "Virtual APIC" }
    ∷ record { name = codes "KVM_CAP_EXT_CPUID"; description = codes "Extended CPUID" }
    ∷ record { name = codes "KVM_CAP_CLOCKSOURCE"; description = codes "Clock source" }
    ∷ record { name = codes "KVM_CAP_NR_VCPUS"; description = codes "Maximum VCPUs" }
    ∷ record { name = codes "KVM_CAP_NR_MEMSLOTS"; description = codes "Maximum memory slots" }
    ∷ record { name = codes "KVM_CAP_PIT"; description = codes "Programmable Interval Timer" }
    ∷ record { name = codes "KVM_CAP_NOP_IO_DELAY"; description = codes "NOP IO delay" }
    ∷ record { name = codes "KVM_CAP_PV_MMU"; description = codes "Paravirtual MMU" }
    ∷ record { name = codes "KVM_CAP_MP_STATE"; description = codes "MP state control" }
    ∷ record { name = codes "KVM_CAP_COALESCED_MMIO"; description = codes "Coalesced MMIO" }
    ∷ record { name = codes "KVM_CAP_SYNC_MMU"; description = codes "Synchronous MMU" }
    ∷ record { name = codes "KVM_CAP_IOMMU"; description = codes "IOMMU support" }
    ∷ record {
      name = codes "KVM_CAP_DESTROY_MEMORY_REGION_WORKS";
      description = codes "Memory region destruction";
    }
    ∷ record { name = codes "KVM_CAP_USER_NMI"; description = codes "User NMI injection" }
    ∷ record { name = codes "KVM_CAP_SET_GUEST_DEBUG"; description = codes "Guest debugging" }
    ∷ record {
      name = codes "KVM_CAP_REINJECT_CONTROL";
      description = codes "Interrupt reinjection control";
    }
    ∷ record { name = codes "KVM_CAP_IRQ_ROUTING"; description = codes "IRQ routing" }
    ∷ record {
      name = codes "KVM_CAP_IRQ_INJECT_STATUS";
      description = codes "IRQ injection status";
    }
    ∷ record { name = codes "KVM_CAP_ASSIGN_DEV_IRQ"; description = codes "Device IRQ assignment" }
    ∷ record {
      name = codes "KVM_CAP_JOIN_MEMORY_REGIONS_WORKS";
      description = codes "Memory region joining";
    }
    ∷ record { name = codes "KVM_CAP_MCE"; description = codes "Machine Check Exception" }
    ∷ record { name = codes "KVM_CAP_IRQFD"; description = codes "IRQ file descriptor" }
    ∷ record { name = codes "KVM_CAP_PIT2"; description = codes "PIT2 support" }
    ∷ record { name = codes "KVM_CAP_SET_BOOT_CPU_ID"; description = codes "Boot CPU ID setting" }
    ∷ record { name = codes "KVM_CAP_PIT_STATE2"; description = codes "PIT state 2" }
    ∷ record { name = codes "KVM_CAP_IOEVENTFD"; description = codes "IO event file descriptor" }
    ∷ record {
      name = codes "KVM_CAP_SET_IDENTITY_MAP_ADDR";
      description = codes "Identity map address";
    }
    ∷ record { name = codes "KVM_CAP_XEN_HVM"; description = codes "Xen HVM support" }
    ∷ record { name = codes "KVM_CAP_ADJUST_CLOCK"; description = codes "Clock adjustment" }
    ∷ record {
      name = codes "KVM_CAP_INTERNAL_ERROR_DATA";
      description = codes "Internal error data";
    }
    ∷ record { name = codes "KVM_CAP_VCPU_EVENTS"; description = codes "VCPU events" }
    ∷ record { name = codes "KVM_CAP_S390_PSW"; description = codes "S390 PSW" }
    ∷ record { name = codes "KVM_CAP_PPC_SEGSTATE"; description = codes "PowerPC segment state" }
    ∷ record { name = codes "KVM_CAP_HYPERV"; description = codes "Hyper-V support" }
    ∷ record { name = codes "KVM_CAP_HYPERV_VAPIC"; description = codes "Hyper-V VAPIC" }
    ∷ record { name = codes "KVM_CAP_HYPERV_SPIN"; description = codes "Hyper-V spinlocks" }
    ∷ record { name = codes "KVM_CAP_PCI_SEGMENT"; description = codes "PCI segments" }
    ∷ record {
      name = codes "KVM_CAP_PPC_PAIRED_SINGLES";
      description = codes "PowerPC paired singles";
    }
    ∷ record { name = codes "KVM_CAP_INTR_SHADOW"; description = codes "Interrupt shadow" }
    ∷ record { name = codes "KVM_CAP_DEBUGREGS"; description = codes "Debug registers" }
    ∷ record {
      name = codes "KVM_CAP_X86_ROBUST_SINGLESTEP";
      description = codes "Robust single-step";
    }
    ∷ record { name = codes "KVM_CAP_PPC_OSI"; description = codes "PowerPC OSI" }
    ∷ record { name = codes "KVM_CAP_PPC_UNSET_IRQ"; description = codes "PowerPC IRQ unsetting" }
    ∷ record { name = codes "KVM_CAP_ENABLE_CAP"; description = codes "Enable capability" }
    ∷ record { name = codes "KVM_CAP_XSAVE"; description = codes "XSAVE support" }
    ∷ record { name = codes "KVM_CAP_XCRS"; description = codes "Extended control registers" }
    ∷ record { name = codes "KVM_CAP_PPC_GET_PVINFO"; description = codes "PowerPC PV info" }
    ∷ record { name = codes "KVM_CAP_PPC_IRQ_LEVEL"; description = codes "PowerPC IRQ level" }
    ∷ record { name = codes "KVM_CAP_ASYNC_PF"; description = codes "Async page fault" }
    ∷ record { name = codes "KVM_CAP_TSC_CONTROL"; description = codes "TSC control" }
    ∷ record { name = codes "KVM_CAP_GET_TSC_KHZ"; description = codes "Get TSC frequency" }
    ∷ record {
      name = codes "KVM_CAP_PPC_BOOKE_SREGS";
      description = codes "PowerPC BookE special registers";
    }
    ∷ record { name = codes "KVM_CAP_SPAPR_TCE"; description = codes "SPAPR TCE" }
    ∷ record { name = codes "KVM_CAP_PPC_SMT"; description = codes "PowerPC SMT" }
    ∷ record { name = codes "KVM_CAP_PPC_RMA"; description = codes "PowerPC RMA" }
    ∷ record { name = codes "KVM_CAP_MAX_VCPUS"; description = codes "Maximum VCPUs (hard limit)" }
    ∷ record { name = codes "KVM_CAP_PPC_HIOR"; description = codes "PowerPC HIOR" }
    ∷ record { name = codes "KVM_CAP_PPC_PAPR"; description = codes "PowerPC PAPR" }
    ∷ record { name = codes "KVM_CAP_SW_TLB"; description = codes "Software TLB" }
    ∷ record { name = codes "KVM_CAP_ONE_REG"; description = codes "One register interface" }
    ∷ record { name = codes "KVM_CAP_S390_GMAP"; description = codes "S390 guest mapping" }
    ∷ record { name = codes "KVM_CAP_TSC_DEADLINE_TIMER"; description = codes "TSC deadline timer" }
    ∷ record { name = codes "KVM_CAP_S390_UCONTROL"; description = codes "S390 user control" }
    ∷ record { name = codes "KVM_CAP_SYNC_REGS"; description = codes "Sync registers" }
    ∷ record { name = codes "KVM_CAP_PCI_2_3"; description = codes "PCI 2.3 features" }
    ∷ record { name = codes "KVM_CAP_KVMCLOCK_CTRL"; description = codes "KVM clock control" }
    ∷ record { name = codes "KVM_CAP_SIGNAL_MSI"; description = codes "Signal MSI" }
    ∷ record { name = codes "KVM_CAP_PPC_GET_SMMU_INFO"; description = codes "PowerPC SMMU info" }
    ∷ record { name = codes "KVM_CAP_S390_COW"; description = codes "S390 copy-on-write" }
    ∷ record {
      name = codes "KVM_CAP_PPC_ALLOC_HTAB";
      description = codes "PowerPC HTAB allocation";
    }
    ∷ record { name = codes "KVM_CAP_READONLY_MEM"; description = codes "Read-only memory" }
    ∷ record {
      name = codes "KVM_CAP_IRQFD_RESAMPLE";
      description = codes "IRQ file descriptor resampling";
    }
    ∷ record {
      name = codes "KVM_CAP_PPC_BOOKE_WATCHDOG";
      description = codes "PowerPC BookE watchdog";
    }
    ∷ record {
      name = codes "KVM_CAP_PPC_HTAB_FD";
      description = codes "PowerPC HTAB file descriptor";
    }
    ∷ record {
      name = codes "KVM_CAP_S390_CSS_SUPPORT";
      description = codes "S390 channel subsystem";
    }
    ∷ record { name = codes "KVM_CAP_PPC_EPR"; description = codes "PowerPC external proxy" }
    ∷ record { name = codes "KVM_CAP_ARM_PSCI"; description = codes "ARM PSCI" }
    ∷ record {
      name = codes "KVM_CAP_ARM_SET_DEVICE_ADDR";
      description = codes "ARM device address";
    }
    ∷ record { name = codes "KVM_CAP_DEVICE_CTRL"; description = codes "Device control" }
    ∷ record { name = codes "KVM_CAP_IRQ_MPIC"; description = codes "MPIC interrupt controller" }
    ∷ record { name = codes "KVM_CAP_PPC_RTAS"; description = codes "PowerPC RTAS" }
    ∷ record { name = codes "KVM_CAP_IRQ_XICS"; description = codes "XICS interrupt controller" }
    ∷ record { name = codes "KVM_CAP_ARM_EL1_32BIT"; description = codes "ARM EL1 32-bit" }
    ∷ record { name = codes "KVM_CAP_SPAPR_MULTITCE"; description = codes "SPAPR multiple TCE" }
    ∷ record {
      name = codes "KVM_CAP_EXT_EMUL_CPUID";
      description = codes "Extended emulated CPUID";
    }
    ∷ record { name = codes "KVM_CAP_HYPERV_TIME"; description = codes "Hyper-V time" }
    ∷ record {
      name = codes "KVM_CAP_IOAPIC_POLARITY_IGNORED";
      description = codes "IOAPIC polarity ignored";
    }
    ∷ record { name = codes "KVM_CAP_ENABLE_CAP_VM"; description = codes "Enable VM capability" }
    ∷ record { name = codes "KVM_CAP_S390_IRQCHIP"; description = codes "S390 interrupt chip" }
    ∷ record {
      name = codes "KVM_CAP_IOEVENTFD_NO_LENGTH";
      description = codes "IO event FD no length";
    }
    ∷ record { name = codes "KVM_CAP_VM_ATTRIBUTES"; description = codes "VM attributes" }
    ∷ record { name = codes "KVM_CAP_ARM_PSCI_0_2"; description = codes "ARM PSCI 0.2" }
    ∷ record {
      name = codes "KVM_CAP_PPC_FIXUP_HCALL";
      description = codes "PowerPC hypercall fixup";
    }
    ∷ record {
      name = codes "KVM_CAP_PPC_ENABLE_HCALL";
      description = codes "PowerPC enable hypercall";
    }
    ∷ record { name = codes "KVM_CAP_CHECK_EXTENSION_VM"; description = codes "Check VM extension" }
    ∷ []
