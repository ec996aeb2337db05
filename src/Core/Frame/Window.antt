-- ===== src/Core/Frame/Window.antt =====
-- Readers as windows: what a reader returns is a suffix of its input, and it does not look past
-- what it takes.
use dlr.Prelude.{
  ℕ, zero, suc, ◌≡◌, refl, arith, [], ◌∷◌, ◌++◌, take, Bool, true, false, if◌then◌else◌,
  append_assoc, length-append, take-append-drop, take-append_le, drop-append_le,
}
use dlr.Core.Bytes.{Bytes}
use dlr.Core.Frame.{FrameError}
use dlr.Core.Frame.Reader.{
  Decoded, ok, err, panic, Reader, pure, fail, continue, ◌>>=◌, read_n, take_bytes, take_u32,
  take_count, take_u128, take_block_id, take_root,
}

pub record IsReader {ℓ} {A : Type ℓ} (f : Reader A) : Type ℓ where
  pub suffix :
      (r : Bytes) (a : A) (rest : Bytes) → f r ≡ ok (a, rest) → (c : Bytes) × (r ≡ c ++ rest)
  pub extend :
      (r more : Bytes) (a : A) (rest : Bytes)
      → f r ≡ ok (a, rest)
      → f (r ++ more) ≡ ok (a, rest ++ more)

-- A successful bind, taken apart.
pub continue-eq-ok {ℓ κ} :
    {A : Type ℓ} {B : Type κ} (d : Decoded (A × Bytes)) (f : A → Reader B) (b : B) (rest : Bytes)
    → continue d f ≡ ok (b, rest)
    → (a : A) × (mid : Bytes) × (d ≡ ok (a, mid)) × (f a mid ≡ ok (b, rest))
continue-eq-ok (ok (a, mid)) f b rest h = (a, mid, refl, h)
continue-eq-ok (err e) f b rest h = absurd (cc)
continue-eq-ok panic f b rest h = absurd (cc)

module _ {ℓ} {A : Type ℓ} where
  pub IsReader-pure : (a : A) → IsReader (pure a)
  IsReader-pure a = record {
    suffix = λ r b rest h. ([], ground arith);
    extend = λ r more b rest h. ground arith;
  }

  pub IsReader-fail : (e : FrameError) → IsReader (fail {A = A} e)
  IsReader-fail e = record {
    suffix = λ r b rest h. absurd (cc);
    extend = λ r more b rest h. absurd (cc);
  }

  pub IsReader-if :
      (b : Bool) (f g : Reader A) → IsReader f → IsReader g → IsReader (if b then f else g)
  IsReader-if true f g hf hg = hf
  IsReader-if false f g hf hg = hg

module _ {ℓ κ} {A : Type ℓ} {B : Type κ} where
  pub IsReader-bind :
      (f : Reader A) (g : A → Reader B)
      → IsReader f
      → ((a : A) → IsReader (g a))
      → IsReader (f >>= g)
  IsReader-bind f g hf hg = record {
    suffix = λ r b rest h.
        let (a, mid, e, e') = continue-eq-ok (f r) g b rest h in
        let (c, p) = hf.suffix r a mid e in
        let (c', p') = (hg a).suffix mid b rest e' in (c ++ c', rw (append_assoc, ← p') p);
    extend = λ r more b rest h.
        let (a, mid, e, e') = continue-eq-ok (f r) g b rest h in
        rw (hf.extend r more a mid e) ((hg a).extend mid more b rest e');
  }

pub IsReader-take_bytes : (n : ℕ) → IsReader (take_bytes n)
unfolding take_bytes
IsReader-take_bytes n = record {
  suffix = λ r a rest h. (take n r, ground (arith, take-append-drop n r));
  extend = λ r more a rest h.
      ground (arith, length-append r more, take-append_le n r more, drop-append_le n r more);
}

pub IsReader-read_n {ℓ} : {A : Type ℓ} (f : Reader A) (n : ℕ) → IsReader f → IsReader (read_n f n)
unfolding read_n
IsReader-read_n f zero h = IsReader-pure []
IsReader-read_n f (suc n) h =
    IsReader-bind f _ h
      (λ x. IsReader-bind (read_n f n) _ (IsReader-read_n f n h) (λ xs. IsReader-pure (x ∷ xs)))

pub IsReader-take_u32 : IsReader take_u32
unfolding take_u32
IsReader-take_u32 = IsReader-bind (take_bytes 4) _ (IsReader-take_bytes 4) (λ v. IsReader-pure _)

pub IsReader-take_u128 : IsReader take_u128
unfolding take_u128
IsReader-take_u128 = IsReader-bind (take_bytes 16) _ (IsReader-take_bytes 16) (λ v. IsReader-pure _)

pub IsReader-take_block_id : IsReader take_block_id
unfolding take_block_id
IsReader-take_block_id = IsReader-take_bytes 32

pub IsReader-take_root : IsReader take_root
unfolding take_root
IsReader-take_root = IsReader-take_block_id

pub IsReader-take_count : IsReader take_count
unfolding take_count
IsReader-take_count =
    IsReader-bind take_u32 _ IsReader-take_u32
      (λ n. IsReader-if _ _ _ (IsReader-fail _) (IsReader-pure n))

pub ruleset reader_rules = (
  IsReader-pure, IsReader-fail, IsReader-if, IsReader-bind, IsReader-take_bytes, IsReader-read_n,
  IsReader-take_u32, IsReader-take_u128, IsReader-take_block_id, IsReader-take_root,
  IsReader-take_count,
)
