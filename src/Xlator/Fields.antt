-- ===== src/Xlator/Fields.antt =====
-- `get_bits`, `get_pde_fields` and `get_pte_fields` of src/xlator/xlator.c.
use rocsift_glog_fork.Common.{bit_and, suc, ℕ, ◌%◌, ◌*◌, ◌/◌, ◌<◌, ◌^◌, ◌≡◌}
use rocsift_glog_fork.Common.Words.{mask, mask_bits, u64, u8}
use rocsift_glog_fork.Xlator.Types.{Pde, Pte}

unfoldable pub get_bits : ℕ → ℕ → ℕ → ℕ
get_bits val msb lsb = bit_and val (mask msb) / 2 ^ lsb

pub get_bits_lem : (val msb lsb : ℕ) → msb < 64 → get_bits val msb lsb ≡ val % 2 ^ suc msb / 2 ^ lsb
unfolding get_bits
get_bits_lem = mask_bits

unfoldable pub get_pde_fields : ℕ → Pde
get_pde_fields pde = record {
  valid = u8 (get_bits pde 0 0);
  system = u8 (get_bits pde 1 1);
  coherent = u8 (get_bits pde 2 2);
  base_address = u64 (get_bits pde 47 6 * 2 ^ 6);
  pte = u8 (get_bits pde 54 54);
  block_fragment_size = u8 (get_bits pde 63 59);
}

unfoldable pub get_pte_fields : ℕ → Pte
get_pte_fields pte = record {
  valid = u8 (get_bits pte 0 0);
  system = u8 (get_bits pte 1 1);
  coherent = u8 (get_bits pte 2 2);
  tmz = u8 (get_bits pte 3 3);
  execute = u8 (get_bits pte 4 4);
  read = u8 (get_bits pte 5 5);
  write = u8 (get_bits pte 6 6);
  fragment = u8 (get_bits pte 11 7);
  base_address = u64 (get_bits pte 47 12 * 2 ^ 12);
  tiled = u8 (get_bits pte 51 51);
  sw = u8 (get_bits pte 53 52);
  pte = u8 (get_bits pte 54 54);
  log = u8 (get_bits pte 55 55);
  translate_further = u8 (get_bits pte 56 56);
  mtype = u8 (get_bits pte 58 57);
}
