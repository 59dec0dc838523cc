-- ===== src/Kernel/Trap/Masks.antt =====
-- The bits of sstatus and sip that the kernel changes, as the masks of h/riscv.hpp change them.
use os1_project.Prelude.{ℕ, ◌^◌, ◌<◌, ◌≡◌, sym, Bool, true, false, arith, if◌then◌else◌}
use os1_project.Registers.{set_bits, clear_bits, sip_ssip, sstatus_spp}
use os1_project.Registers.Masks.{clear_bits-sie, set_bits-spp, clear_bits-spp}
use os1_project.Kernel.Trap.{set_spp}
use os1_project.Kernel.Trap.Handler.{mc_sip_ssip}

set_spp-masks :
    (a : ℕ) (system : Bool)
    → a < 2 ^ 64
    → set_spp a system ≡ (if system then set_bits a sstatus_spp else clear_bits a sstatus_spp)
unfolding set_spp
set_spp-masks a true small = omega (arith, set_bits-spp a small)
set_spp-masks a false small = omega (arith, clear_bits-spp a small)

mc_sip_ssip-masks : (a : ℕ) → a < 2 ^ 64 → mc_sip_ssip a ≡ clear_bits a sip_ssip
unfolding mc_sip_ssip
mc_sip_ssip-masks a small = sym (clear_bits-sie a small)
