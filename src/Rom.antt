-- ===== src/Rom.antt =====
-- tools/dump_rom.py, tools/check_patch.py, tools/recon.py and tools/patches.py: the cartridge image as
-- a list of words, its patched dump, the check of a build, and the decoder of call sites.
pub mod Patches
pub mod Dump
pub mod Recon
pub mod Report
pub mod Builds
pub mod Files
pub mod Sites
pub mod Called
pub mod Checked
pub mod Segments
mod Tests
use Prim.Native.Nat.{bit_or}
use fujinet_intv_basketball.Base.{ℕ, ◌*◌, List, [], ◌∷◌, Bytes}

-- `words`: 16 bits each, big-endian; an odd last byte is dropped.
unfoldable pub words : Bytes → List ℕ
words [] = []
words (hi ∷ []) = []
words (hi ∷ lo ∷ data_left) = bit_or (hi * 256) lo ∷ words data_left
