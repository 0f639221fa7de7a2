-- ===== src/Processor/Vendor.antt =====
-- arch/X86_64/cpu.c and cpu.h, with `struct CPUINFO` of arch/include/synos/arch/cpu.h.
use Prim.Native.Nat.{bit_and}
use Prim.Native.String.{String}
use synos.Prelude.{
  ℕ, ◌/◌, ◌%◌, ◌^◌, ◌≡◌, ◌≢◌, refl, Bool, true, false, none, some, List, [], ◌∷◌, ltb,
  if◌then◌else◌, bytes_of, arith, Bool-cases, inl, inr, ap, mask, bit_and-Masked,
}
use synos.Str.{same, plus, minus, strcmp_from}

-- `enum Manufacturer`
pub data Manufacturer : Type 0 where
  old_amd : Manufacturer
  amd : Manufacturer
  intel : Manufacturer
  via : Manufacturer
  old_transmeta : Manufacturer
  transmeta : Manufacturer
  cyrix : Manufacturer
  centaur : Manufacturer
  nexgen : Manufacturer
  umc : Manufacturer
  sis : Manufacturer
  nsc : Manufacturer
  rise : Manufacturer
  vortex : Manufacturer
  hygon : Manufacturer
  vmware : Manufacturer
  xenhvm : Manufacturer
  microsoft_mv : Manufacturer
  parallels : Manufacturer
  bhyve : Manufacturer
  kvm : Manufacturer
  acrn : Manufacturer
  unknown : Manufacturer

-- One test of the chain: the text, and what is set when it is the one of the processor.
pub record Vendor : Type 0 where
  pub text : String
  pub vendor : Manufacturer
  pub is_vm : Bool

abbrev machine : String → Manufacturer → Vendor
machine t m = record { text = t; vendor = m; is_vm = false }

abbrev virtual : String → Manufacturer → Vendor
virtual t m = record { text = t; vendor = m; is_vm = true }

-- The tests in their order.
unfoldable pub vendors : List Vendor
vendors =
    machine "AMDisbetter!" old_amd
    ∷ machine "AuthenticAMD" amd
    ∷ machine "GenuineIntel" intel
    ∷ machine "VIA VIA VIA " amd
    ∷ machine "TransmetaCPU" old_transmeta
    ∷ machine "GenuineTMx86" transmeta
    ∷ machine "CyrixInstead" cyrix
    ∷ machine "CentaurHauls" centaur
    ∷ machine "NexGenDriven" nexgen
    ∷ machine "UMC UMC UMC " umc
    ∷ machine "SiS SiS SiS " sis
    ∷ machine "Geode by NSC" nsc
    ∷ machine "RiseRiseRise" rise
    ∷ machine "Vortex86 SoC" vortex
    ∷ machine "HygonGenuine" hygon
    ∷ virtual "VMwareVMware" vmware
    ∷ virtual "XenVMMXenVMM" xenhvm
    ∷ virtual "Microsoft Hv" microsoft_mv
    ∷ virtual " lrpepyh vr" parallels
    ∷ virtual "bhyve bhyve " bhyve
    ∷ virtual "KVMKVMKVMKVM" kvm
    ∷ virtual "ACRNACRNACRN" acrn
    ∷ []

-- The twelve bytes of the processor with a zero behind them.
abbrev pub ended : (ℕ → ℕ) → ℕ → ℕ
ended manufacturer i = if ltb i 12 then manufacturer i else 0

-- `strcmp(vendor, vnd) == 0`
unfoldable pub vendorcmp : (ℕ → ℕ) → String → Bool
vendorcmp manufacturer vnd = elim (strcmp_from 13 (ended manufacturer) (bytes_of vnd) 0) [
  | none ↦ false
  | some same ↦ true
  | some plus ↦ false
  | some minus ↦ false
]

-- The chain of tests, and what is set when none holds.
unfoldable pub detect : (ℕ → ℕ) → List Vendor → Manufacturer × Bool
detect manufacturer [] = (unknown, false)
detect manufacturer (v ∷ vs) =
    let rest = detect manufacturer vs in
    if vendorcmp manufacturer v.text then (v.vendor, v.is_vm) else rest

-- `struct CPUINFO`, with the fields of `x64ID` that the pointer `asp` leads to.
pub record CpuInfo : Type 0 where
  pub enabled : Bool
  pub vendor : Manufacturer
  pub is_vm : Bool
  pub vendor_string : ℕ → ℕ
  pub apic : ℕ
  pub fi_edx : ℕ
  pub fi_ecx : ℕ

-- What the processor answers: whether it can be asked, its twelve bytes, and its features.
pub record Cpuid : Type 0 where
  pub supported : Bool
  pub manufacturer : ℕ → ℕ
  pub edx : ℕ
  pub ecx : ℕ

unfoldable pub get_cpuinfo : Cpuid → CpuInfo → CpuInfo
unfolding detect vendors
get_cpuinfo id cpu =
    let (found, virtual_machine) = detect id.manufacturer vendors in
    if id.supported
    then record {
      enabled = true;
      vendor = found;
      is_vm = virtual_machine;
      vendor_string = id.manufacturer;
      apic = bit_and id.edx (2 ^ 9) / 2 ^ 9;
      fi_edx = id.edx;
      fi_ecx = id.ecx;
    }
    else record cpu { enabled = false }

-- The manufacturers of virtual machines.
unfoldable pub is_virtual : Manufacturer → Bool
is_virtual vmware = true
is_virtual xenhvm = true
is_virtual microsoft_mv = true
is_virtual parallels = true
is_virtual bhyve = true
is_virtual kvm = true
is_virtual acrn = true
is_virtual _ = false

is_via : Manufacturer → Bool
is_via via = true
is_via _ = false

is_via-via : is_via via ≡ true
unfolding is_via
is_via-via = refl

-- What a manufacturer and the mark of a virtual machine are to each other.
abbrev Consistent : Manufacturer → Bool → Type 0
Consistent vendor is_vm = (is_vm ≡ is_virtual vendor) × (is_via vendor ≡ false)

abbrev AllConsistent : List Vendor → Type 0
AllConsistent [] = Unit
AllConsistent (v ∷ vs) = Consistent v.vendor v.is_vm × AllConsistent vs

detect-Consistent :
    (manufacturer : ℕ → ℕ) (vs : List Vendor)
    → AllConsistent vs
    → Consistent (detect manufacturer vs).0 (detect manufacturer vs).1
unfolding detect is_virtual is_via
detect-Consistent manufacturer [] all = (refl, refl)
detect-Consistent manufacturer (v ∷ vs) all = elim (Bool-cases (vendorcmp manufacturer v.text)) [
  | inl e ↦ rw e all.0
  | inr e ↦ rw e (detect-Consistent manufacturer vs all.1)
]

vendors-AllConsistent : AllConsistent vendors
unfolding vendors is_virtual is_via
vendors-AllConsistent =
    let r : (true ≡ true) × (false ≡ false) = (refl, refl) in
    let m : (false ≡ false) × (false ≡ false) = (refl, refl) in
    (
      m,
      (
        m,
        (
          m,
          (
            m,
            (
              m,
              (
                m,
                (m, (m, (m, (m, (m, (m, (m, (m, (m, (r, (r, (r, (r, (r, (r, (r, tt)))))))))))))))),
              ),
            ),
          ),
        ),
      ),
    )

apic_bit : (edx : ℕ) → bit_and edx (2 ^ 9) / 2 ^ 9 ≡ edx / 2 ^ 9 % 2
unfolding mask
apic_bit edx =
    let a = bit_and-Masked 9 1 edx in omega (arith, a.parts, a.below_lt, a.kept_lt, a.value_eq)

-- On a processor that can be asked, `getCPUINFO` marks a virtual machine exactly for the manufacturers
-- of virtual machines, never finds VIA, and reads the mark of the APIC from bit 9 of the features;
-- on another one it changes nothing but the mark that the processor can be asked.
pub get_cpuinfo-Consistent :
    (id : Cpuid) (cpu : CpuInfo)
    → (id.supported ≡ true
        → ((get_cpuinfo id cpu).is_vm ≡ is_virtual (get_cpuinfo id cpu).vendor)
          × ((get_cpuinfo id cpu).vendor ≢ via)
          × ((get_cpuinfo id cpu).apic ≡ id.edx / 2 ^ 9 % 2))
      × (id.supported ≡ false → get_cpuinfo id cpu ≡ record cpu { enabled = false })
unfolding get_cpuinfo
get_cpuinfo-Consistent id cpu = (
  λ e. rw e (c.0, (λ is. ground (arith, ap is_via is, c.1, is_via-via)), (apic_bit id.edx)),
  λ e. rw e refl,
)
  where
    c : Consistent (detect id.manufacturer vendors).0 (detect id.manufacturer vendors).1
    c = detect-Consistent id.manufacturer vendors vendors-AllConsistent
