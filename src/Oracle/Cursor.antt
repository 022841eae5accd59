-- ===== src/Oracle/Cursor.antt =====
-- Reading an account's bytes from its front, for oracle/native_bcook.rs.
use native.Mathlib.Nat.{pow-suc}
use aera_v.Common.{
  ℕ, zero, suc, ◌+◌, ◌*◌, ◌/◌, ◌%◌, ◌^◌, ◌<◌, ◌≤◌, ◌≡◌, refl, arith, [], ◌∷◌, ◌++◌, some, ok,
  le→leb, ◌>>=◌, length, get_elem?, Bytes, take, drop, get_range, from_le_bytes,
}
use aera_v.Oracle.StakePool.{read_u8, read_u64, read_pubkey}

-- `u64::to_le_bytes` and its kin
unfoldable pub to_le_bytes : (count value : ℕ) → Bytes
to_le_bytes zero v = []
to_le_bytes (suc n) v = (v % 256) ∷ to_le_bytes n (v / 256)

pub length-to_le_bytes : (n v : ℕ) → length (to_le_bytes n v) ≡ n
unfolding to_le_bytes
length-to_le_bytes zero v = refl
length-to_le_bytes (suc n) v = rw (length-to_le_bytes n (v / 256)) refl

pub from_le_bytes-to_le_bytes : (n v : ℕ) → v < 256 ^ n → from_le_bytes (to_le_bytes n v) ≡ v
unfolding to_le_bytes from_le_bytes
from_le_bytes-to_le_bytes zero v h = omega arith
from_le_bytes-to_le_bytes (suc n) v h =
    let h' : v < 256 ^ n * 256 = rw (pow-suc 256 n) at h in
    rw (from_le_bytes-to_le_bytes n (v / 256) (omega arith)) (omega arith)

-- The rest of the bytes from an offset on.
abbrev pub IsAt : Bytes → ℕ → Bytes → Type 0
IsAt bytes at rest = drop at bytes ≡ rest

drop-nil : (n : ℕ) → drop n [] ≡ []
unfolding drop
drop-nil zero = refl
drop-nil (suc n) = refl

drop-drop : (m n : ℕ) (bs : Bytes) → drop (m + n) bs ≡ drop n (drop m bs)
unfolding drop
drop-drop zero n bs = let e : 0 + n ≡ n = omega arith in rw e refl
drop-drop (suc m) n [] = let e : suc m + n ≡ suc (m + n) = omega arith in rw (e, drop-nil n) refl
drop-drop (suc m) n (b ∷ bs) =
    let e : suc m + n ≡ suc (m + n) = omega arith in rw e (drop-drop m n bs)

drop-append : (chunk rest : Bytes) → drop (length chunk) (chunk ++ rest) ≡ rest
unfolding drop
drop-append [] rest = refl
drop-append (b ∷ bs) rest = drop-append bs rest

take-append : (chunk rest : Bytes) → take (length chunk) (chunk ++ rest) ≡ chunk
unfolding take
take-append [] rest = refl
take-append (b ∷ bs) rest = rw (take-append bs rest) refl

length-append : (a b : Bytes) → length (a ++ b) ≡ length a + length b
length-append [] b = omega arith
length-append (x ∷ a) b = omega (arith, length-append a b)

-- What is left from an offset inside the bytes reaches to their end.
drop_fits : (at : ℕ) (bs : Bytes) → 0 < length (drop at bs) → at + length (drop at bs) ≡ length bs
unfolding drop
drop_fits zero bs h = omega arith
drop_fits (suc n) [] h = absurd (omega arith)
drop_fits (suc n) (b ∷ bs) h = omega (arith, drop_fits n bs h)

module _ (bytes : Bytes) (at : ℕ) where
  pub advance :
      (chunk rest : Bytes) (n : ℕ)
      → length chunk ≡ n
      → IsAt bytes at (chunk ++ rest)
      → IsAt bytes (at + n) rest
  advance chunk rest n e h = rw (drop-drop at n bytes, h, ← e) (drop-append chunk rest)

  get_range-chunk :
      (chunk rest : Bytes) (n : ℕ)
      → length chunk ≡ n
      → 0 < n
      → IsAt bytes at (chunk ++ rest)
      → get_range bytes at n ≡ some chunk
  unfolding get_range
  get_range-chunk chunk rest n e p h =
      let all : length (drop at bytes) ≡ length chunk + length rest =
        rw h (length-append chunk rest) in
      let total = drop_fits at bytes (omega arith) in
      let fits : at + n ≤ length bytes = omega arith in
      rw (le→leb _ _ fits, h, ← e, take-append chunk rest) refl

  pub read_u64-IsAt :
      (v : ℕ) (rest : Bytes)
      → v < 256 ^ 8
      → IsAt bytes at (to_le_bytes 8 v ++ rest)
      → read_u64 bytes at ≡ ok v
  unfolding read_u64 ◌>>=◌
  read_u64-IsAt v rest b h =
      rw
        (
          get_range-chunk (to_le_bytes 8 v) rest 8 (length-to_le_bytes 8 v) (omega arith) h,
          from_le_bytes-to_le_bytes 8 v b,
        )
        refl

  pub read_pubkey-IsAt :
      (v : ℕ) (rest : Bytes)
      → v < 256 ^ 32
      → IsAt bytes at (to_le_bytes 32 v ++ rest)
      → read_pubkey bytes at ≡ ok v
  unfolding read_pubkey ◌>>=◌
  read_pubkey-IsAt v rest b h =
      rw
        (
          get_range-chunk (to_le_bytes 32 v) rest 32 (length-to_le_bytes 32 v) (omega arith) h,
          from_le_bytes-to_le_bytes 32 v b,
        )
        refl

get_elem?-drop :
    (at : ℕ) (bs : Bytes) (b : ℕ) (rest : Bytes) → drop at bs ≡ b ∷ rest → get_elem? bs at ≡ some b
unfolding drop
get_elem?-drop zero [] b rest h = cc
get_elem?-drop zero (x ∷ xs) b rest h = cc
get_elem?-drop (suc n) [] b rest h = cc
get_elem?-drop (suc n) (x ∷ xs) b rest h = get_elem?-drop n xs b rest h

pub read_u8-IsAt :
    (bytes : Bytes) (at b : ℕ) (rest : Bytes) → IsAt bytes at (b ∷ rest) → read_u8 bytes at ≡ ok b
unfolding read_u8
read_u8-IsAt bytes at b rest h = rw (get_elem?-drop at bytes b rest h) refl

-- Past a number.
pub advance-to_le_bytes :
    (bytes : Bytes) (at n v : ℕ) {rest : Bytes}
    → IsAt bytes at (to_le_bytes n v ++ rest)
    → IsAt bytes (at + n) rest
advance-to_le_bytes bytes at n v {rest} h =
    advance bytes at (to_le_bytes n v) rest n (length-to_le_bytes n v) h
