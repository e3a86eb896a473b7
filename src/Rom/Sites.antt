-- ===== src/Rom/Sites.antt =====
-- The patched call sites and timer sites do what the map means them to do.
use fujinet_intv_basketball.Base.{ℕ, ◌+◌, ◌-◌, ◌*◌, ◌/◌, ◌%◌, ◌<◌, ◌≡◌, arith}
use fujinet_intv_basketball.Rom.Patches.{Symbol, Patch, IsAssembler, back_from, low_byte, high_byte}

back : (pc x : ℕ) → pc < 65536 → x < 65536 → (pc + 65536 - (pc + 65536 - x) % 65536) % 65536 ≡ x
back pc x hp hx = omega arith

bytes : (x : ℕ) → x % 256 + 256 * (x / 256) ≡ x
bytes x = omega arith

-- The immediate that a timer site subtracts from its program counter leads, modulo 0x10000, to the
-- symbol; and the header's two bytes of a symbol are its address.
pub back_from-lands :
    (address : Symbol → ℕ) (value : Patch → ℕ) (pc : ℕ) (s : Symbol)
    → IsAssembler address value
    → pc < 65536
    → ((pc + 65536 - value (back_from pc s)) % 65536 ≡ address s)
      × (value (low_byte s) + 256 * value (high_byte s) ≡ address s)
back_from-lands address value pc s h hp = (
  rw (h.value_back pc s) (back pc (address s) hp (h.is_word s)),
  rw (h.value_low s, h.value_high s) (bytes (address s)),
)
