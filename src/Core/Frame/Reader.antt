-- ===== src/Core/Frame/Reader.antt =====
-- The decoder's window `r: &mut &[u8]` as a state, with errors and panics as results.
use dlr.Prelude.{ℕ, zero, suc, List, [], ◌∷◌, length, take, drop, ltb, if◌then◌else◌}
use dlr.Core.Bytes.{Bytes, from_le}
use dlr.Core.Frame.{FrameError, truncated, too_large, max_frame_count}

-- `panic` is an index out of bounds, which ends the thread.
pub data Decoded {ℓ} (A : Type ℓ) : Type ℓ where
  ok : A → Decoded A
  err : FrameError → Decoded A
  panic : Decoded A

abbrev pub Reader {ℓ} : Type ℓ → Type ℓ
Reader A = Bytes → Decoded (A × Bytes)

module _ {ℓ} {A : Type ℓ} where
  abbrev pub pure : A → Reader A
  pure a r = ok (a, r)

  abbrev pub fail : FrameError → Reader A
  fail e r = err e

  abbrev pub value : Decoded (A × Bytes) → Decoded A
  value (ok (a, r)) = ok a
  value (err e) = err e
  value panic = panic

module _ {ℓ κ} {A : Type ℓ} {B : Type κ} where
  abbrev pub continue : Decoded (A × Bytes) → (A → Reader B) → Decoded (B × Bytes)
  continue (ok (a, r)) f = f a r
  continue (err e) f = err e
  continue panic f = panic

  infixl 5 ◌>>=◌
  abbrev pub ◌>>=◌ : Reader A → (A → Reader B) → Reader B
  ◌>>=◌ m f r = continue (m r) f

-- `for _ in 0..n { out.push(f(&mut r)?) }`
unfoldable pub read_n {ℓ} : {A : Type ℓ} → Reader A → ℕ → Reader (List A)
read_n f zero = pure []
read_n f (suc n) = do x ← f; xs ← read_n f n; pure (x ∷ xs)

-- A copy of the first `n` bytes, and a step past them.
unfoldable pub take_bytes : ℕ → Reader Bytes
take_bytes n r = if ltb (length r) n then err truncated else ok (take n r, drop n r)

unfoldable pub take_u32 : Reader ℕ
take_u32 = do v ← take_bytes 4; pure (from_le v)

unfoldable pub take_count : Reader ℕ
take_count = do n ← take_u32; if ltb max_frame_count n then fail (too_large n) else pure n

unfoldable pub take_u128 : Reader ℕ
take_u128 = do a ← take_bytes 16; pure (from_le a)

unfoldable pub take_block_id : Reader Bytes
take_block_id = take_bytes 32

unfoldable pub take_root : Reader Bytes
take_root = take_block_id
