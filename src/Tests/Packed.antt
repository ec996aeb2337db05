-- ===== src/Tests/Packed.antt =====
-- A toy `zstd`, which packs a run of zeros into its length, and a block that is long enough for it.
use dlr.Prelude.{
  ℕ, ◌==◌, ◌≡◌, refl, sym, ap, ◌∙◌, arith, [], ◌∷◌, length, Option, none, some, Bool, true, ◌&&◌,
  if◌then◌else◌, Bool-cases, inl, inr, ==_iff,
}
use dlr.Prelude.Results.{ok}
use dlr.Core.Bytes.{Bytes}
use dlr.Core.Merkle.{replicate}
use dlr.Compress.{
  Zstd, Contexts, Compressor, from_content, raw_dict, new_compressor, with_level, use_encoder,
  cached_encoder, compress, compress_with, mark, decompress,
}
use dlr.Compress.Cached.{Registered, IsConsistent, decompress-compress}

all_zero : Bytes → Bool
all_zero [] = true
all_zero (b ∷ bs) = (b == 0) && all_zero bs

replicate-all_zero : (x : Bytes) → all_zero x ≡ true → replicate (length x) 0 ≡ x
unfolding all_zero
replicate-all_zero [] h = refl
replicate-all_zero (b ∷ bs) h = elim (Bool-cases (b == 0)) [
  | inr e ↦ absurd (cc (rw e at h))
  | inl e ↦
      ap (λ l. 0 ∷ l) (replicate-all_zero bs (rw e at h))
      ∙ ap (λ (d : ℕ). d ∷ bs) (sym ((==_iff b 0).0 e))
]

abbrev toy_encode : Bytes → Bytes
toy_encode x = length x ∷ (if all_zero x then [] else x)

abbrev toy_decode : Bytes → Option Bytes
toy_decode [] = none
toy_decode (n ∷ []) = some (replicate n 0)
toy_decode (n ∷ x ∷ xs) = some (x ∷ xs)

abbrev toy_size : Bytes → Option ℕ
toy_size [] = none
toy_size (n ∷ xs) = some n

some_inj : (a b : Bytes) → some a ≡ some b → a ≡ b
some_inj a b h = ground (arith, h)

toy_size-encode : (x z : Bytes) → some (toy_encode x) ≡ some z → toy_size z ≡ some (length x)
toy_size-encode x z h = ap toy_size (sym (some_inj _ z h))

toy_back : (x : Bytes) → toy_decode (toy_encode x) ≡ some x
unfolding all_zero
toy_back [] = refl
toy_back (b ∷ bs) = elim (Bool-cases (all_zero (b ∷ bs))) [
  | inl e ↦ rw e (ap (λ (l : Bytes). some l) (replicate-all_zero (b ∷ bs) e))
  | inr e ↦ rw e
]

toy_decode-encode : (x z : Bytes) → some (toy_encode x) ≡ some z → toy_decode z ≡ some x
toy_decode-encode x z h = ap toy_decode (sym (some_inj _ z h)) ∙ toy_back x

abbrev toy_zstd : Zstd
toy_zstd = record {
  Encoder = ℕ;
  Decoder = ℕ;
  encoder = λ level dict. some level;
  decoder = λ dict. some 0;
  encode = λ e x. some (toy_encode x);
  decode = λ d z cap. toy_decode z;
  content_size = toy_size;
  content_size-encode = λ e x z h. toy_size-encode x z h;
  decode-encode = λ level dict e d x z he hd hz. toy_decode-encode x z hz;
}

abbrev bulk_compressor : Compressor
bulk_compressor = new_compressor (from_content 4 (9 ∷ 9 ∷ [])) 19

abbrev no_contexts : Contexts toy_zstd
no_contexts = record { enc = none; dec = none }

abbrev dict_of : ℕ → Option Bytes
dict_of id = some (9 ∷ 9 ∷ [])

bulk-Registered : Registered toy_zstd dict_of bulk_compressor
unfolding new_compressor from_content raw_dict
bulk-Registered = refl

no_contexts-IsConsistent : IsConsistent toy_zstd dict_of no_contexts
no_contexts-IsConsistent = record { enc = λ level id e h. absurd (cc); dec = λ id d h. absurd (cc) }

zeros_packed : (compress toy_zstd bulk_compressor (replicate 40 0) no_contexts).1 ≡ ok (1 ∷ 40 ∷ [])
unfolding compress use_encoder cached_encoder compress_with mark new_compressor from_content
    raw_dict all_zero
zeros_packed = refl

same_dict : (with_level 3 bulk_compressor).dict ≡ bulk_compressor.dict
unfolding with_level
same_dict = refl

decompress-compress_example :
    (decompress toy_zstd (with_level 3 bulk_compressor) (1 ∷ 40 ∷ []) no_contexts).1
    ≡ ok (replicate 40 0)
decompress-compress_example =
    decompress-compress toy_zstd dict_of bulk_compressor (with_level 3 bulk_compressor) no_contexts
      no_contexts 0 (replicate 40 0) (1 ∷ 40 ∷ []) bulk-Registered same_dict
      no_contexts-IsConsistent no_contexts-IsConsistent refl zeros_packed
