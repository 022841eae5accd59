-- ===== src/Common/Raw.antt =====
-- An account's data as its bytes, and how Rust reads numbers and keys out of them.
use Prim.Native.Nat.{ℕ, zero, suc, ◌+◌, ◌*◌}
use mathlib.Core.Bool.{Bool}
use mathlib.Core.Option.{Option, none, some}
use mathlib.Core.List.{List, [], ◌∷◌}
use aera_v.Common.Tests.{leb, if◌then◌else◌}
use aera_v.Common.Lists.{length}
use aera_v.Common.Chain.{Pubkey}

abbrev pub Bytes : Type 0
Bytes = List ℕ

unfoldable pub take : ℕ → Bytes → Bytes
take zero bs = []
take (suc n) [] = []
take (suc n) (b ∷ bs) = b ∷ take n bs

unfoldable pub drop : ℕ → Bytes → Bytes
drop zero bs = bs
drop (suc n) [] = []
drop (suc n) (b ∷ bs) = drop n bs

-- `u64::from_le_bytes` and its kin, and a `Pubkey` as the number of its bytes
unfoldable pub from_le_bytes : Bytes → ℕ
from_le_bytes [] = 0
from_le_bytes (b ∷ bs) = b + 256 * from_le_bytes bs

-- `bytes.get(at..at + count)`
unfoldable pub get_range : Bytes → (at count : ℕ) → Option Bytes
get_range bs at count =
    if leb (at + count) (length bs) then some (take count (drop at bs)) else none

-- `&bytes[at..at + count]`, where the length was checked before.
unfoldable pub range_at : Bytes → (at count : ℕ) → Bytes
range_at bs at count = take count (drop at bs)

-- `AccountInfo`, what the oracle reads of an account that it does not own
pub record RawAccount : Type 0 where
  pub key : Pubkey
  pub owner : Pubkey
  pub is_writable : Bool
  pub lamports : ℕ
  pub bytes : Bytes
