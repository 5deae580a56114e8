-- ===== src/Examples/Addresses.antt =====
-- `allocateIP` on a subnet of four addresses.
use k_elda_archive.Base.{ℕ, zero, suc, String, [], ◌∷◌, arith}
use k_elda_archive.Network.Ip.{IpPool, allocate_ip}
use k_elda_archive.Network.IpLaws.{IsAllocation, allocate_ip-IsAllocation}

abbrev notation : ℕ → String
notation zero = "10.0.0.0"
notation (suc zero) = "10.0.0.1"
notation (suc (suc zero)) = "10.0.0.2"
notation (suc (suc (suc n))) = "10.0.0.3"

abbrev pool : IpPool
pool = record { reserved = "10.0.0.3" ∷ "10.0.0.0" ∷ []; drawn = 0 }

allocate_ip-IsAllocation_example :
    IsAllocation notation 0 4 (λ n. 7) pool (allocate_ip notation 0 4 (λ n. 7) pool)
allocate_ip-IsAllocation_example = allocate_ip-IsAllocation notation 0 4 (λ n. 7) pool (omega arith)
