-- ===== src/Processor/Tests.antt =====
-- The theorems on the processor applied to one that calls itself AuthenticAMD.
use synos.Prelude.{◌≡◌, refl, true, false, bytes_of}
use synos.Processor.Vendor.{Cpuid, CpuInfo, amd, unknown, get_cpuinfo, vendors, detect, vendorcmp}
use synos.Str.{strcmp_from}

abbrev authentic : Cpuid
authentic = record {
  supported = true;
  manufacturer = bytes_of "AuthenticAMD";
  edx = 0xBFEBFBFF;
  ecx = 0;
}

abbrev unasked : CpuInfo
unasked = record {
  enabled = false;
  vendor = unknown;
  is_vm = false;
  vendor_string = λ i. 0;
  apic = 0;
  fi_edx = 0;
  fi_ecx = 0;
}

authentic-amd : (get_cpuinfo authentic unasked).vendor ≡ amd
unfolding get_cpuinfo detect vendors vendorcmp strcmp_from bytes_of
authentic-amd = refl
