-- ===== src/Compress.antt =====
-- crates/compress/src/lib.rs: the block compressor over zstd, with its per-thread contexts as a
-- state. The `zstd` crate is a parameter; the texts of its errors are left out, and an `i32` level
-- is a number that is only compared and passed on.
pub mod Cached
pub mod Delta
pub mod Train
use dlr.Prelude.{
  ℕ, zero, suc, ◌+◌, ◌*◌, ◌-◌, ◌%◌, ◌^◌, ◌≡◌, List, [], ◌∷◌, length, Option, none, some, Bool, true,
  false, ltb, leb, ◌==◌, ◌&&◌, if◌then◌else◌, min,
}
use dlr.Prelude.Results.{Result, ok, err}
use dlr.Core.Bytes.{Bytes}

-- The contexts of `zstd::bulk`. A context compresses every buffer as one frame of its own, so that
-- it is a value; none is an error. The two laws are the crate's: a frame of `bulk::Compressor`
-- carries its content size, and a decoder with the same dictionary, whatever the level was, gives
-- the content back into a buffer of that size.
pub record Zstd : Type 1 where
  pub Encoder : Type 0
  pub Decoder : Type 0
  pub encoder : ℕ → Option Bytes → Option Encoder
  pub decoder : Option Bytes → Option Decoder
  pub encode : Encoder → Bytes → Option Bytes
  pub decode : Decoder → Bytes → ℕ → Option Bytes
  pub content_size : Bytes → Option ℕ
  pub content_size-encode :
      (e : Encoder) (x z : Bytes) → encode e x ≡ some z → content_size z ≡ some (length x)
  pub decode-encode :
      (level : ℕ) (dict : Option Bytes) (e : Encoder) (d : Decoder) (x z : Bytes)
      → encoder level dict ≡ some e
      → decoder dict ≡ some d
      → encode e x ≡ some z
      → decode d z (length x) ≡ some x

-- The variant `DictId` is never built.
pub data CompressError : Type 0 where
  encode_error decode_error : CompressError

pub record Dict : Type 0 where
  pub id : ℕ
  pub content : Bytes

unfoldable pub from_content : ℕ → Bytes → Dict
from_content id content = record { id = id; content = content }

unfoldable pub empty_dict : Dict
empty_dict = record { id = 0; content = [] }

-- The dictionary that a context is built with; an empty one is none.
unfoldable pub raw_dict : Bytes → Option Bytes
raw_dict [] = none
raw_dict (b ∷ bs) = some (b ∷ bs)

pub record Compressor : Type 0 where
  pub dict : Dict
  pub level : ℕ
  pub min_block : ℕ

unfoldable pub new_compressor : Dict → ℕ → Compressor
new_compressor dict level = record { dict = dict; level = level; min_block = 32 }

unfoldable pub with_level : ℕ → Compressor → Compressor
with_level level c = record { dict = c.dict; level = level; min_block = c.min_block }

unfoldable pub set_dict : Dict → Compressor → Compressor
set_dict dict c = record c { dict = dict }

module _ (zstd : Zstd) where
  -- A thread's `ENC` and `DEC`, under the level and the dictionary id they were built for.
  pub record Contexts : Type 0 where
    pub enc : Option (ℕ × ℕ × zstd.Encoder)
    pub dec : Option (ℕ × zstd.Decoder)

  -- The cached encoder, if it is for this level and dictionary id.
  unfoldable pub cached_encoder : Compressor → Contexts → Option zstd.Encoder
  cached_encoder c k = elim k.enc [
    | none ↦ none
    | some (level, id, e) ↦
        if level == c.level then (if id == c.dict.id then some e else none) else none
  ]

  unfoldable pub cached_decoder : Compressor → Contexts → Option zstd.Decoder
  cached_decoder c k = elim k.dec [
    | none ↦ none
    | some (id, d) ↦ if id == c.dict.id then some d else none
  ]

  -- The encoder that is used, and the contexts with it in the cache; none if it cannot be built.
  unfoldable pub use_encoder : Compressor → Contexts → Contexts × Option zstd.Encoder
  use_encoder c k = elim (cached_encoder c k) [
    | some e ↦ (k, some e)
    | none ↦ elim (zstd.encoder c.level (raw_dict c.dict.content)) [
      | none ↦ (k, none)
      | some e ↦ (record k { enc = some (c.level, c.dict.id, e) }, some e)
    ]
  ]

  unfoldable pub use_decoder : Compressor → Contexts → Contexts × Option zstd.Decoder
  use_decoder c k = elim (cached_decoder c k) [
    | some d ↦ (k, some d)
    | none ↦ elim (zstd.decoder (raw_dict c.dict.content)) [
      | none ↦ (k, none)
      | some d ↦ (record k { dec = some (c.dict.id, d) }, some d)
    ]
  ]

  -- The frame behind its marker, or the input as it is where that is not longer.
  unfoldable pub mark : Bytes → Bytes → Bytes
  mark input compressed =
      if leb (length input) (length compressed + 1) then 0 ∷ input else 1 ∷ compressed

  unfoldable pub compress_with : Option zstd.Encoder → Bytes → Result CompressError Bytes
  compress_with e input = elim e [
    | none ↦ err encode_error
    | some enc ↦ elim (zstd.encode enc input) [
      | none ↦ err encode_error
      | some compressed ↦ ok (mark input compressed)
    ]
  ]

  unfoldable pub compress : Compressor → Bytes → Contexts → Contexts × Result CompressError Bytes
  compress c input k =
      if ltb (length input) c.min_block
      then (k, ok (0 ∷ input))
      else (let (k', e) = use_encoder c k in (k', compress_with e input))

  -- The capacity of the output: the frame's content size, or a guess.
  unfoldable pub capacity : Bytes → ℕ
  capacity body = elim (zstd.content_size body) [
    | some size ↦ size
    | none ↦ (min (length body * 64) (2 ^ 64 - 1) + 2 ^ 20) % 2 ^ 64
  ]

  unfoldable pub decompress_with : Option zstd.Decoder → Bytes → Result CompressError Bytes
  decompress_with d body = elim d [
    | none ↦ err decode_error
    | some dec ↦ elim (zstd.decode dec body (capacity body)) [
      | none ↦ err decode_error
      | some out ↦ ok out
    ]
  ]

  unfoldable pub decompress : Compressor → Bytes → Contexts → Contexts × Result CompressError Bytes
  decompress c [] k = (k, err decode_error)
  decompress c (marker ∷ body) k =
      let (k', d) = use_decoder c k in
      if marker == 0
      then (k, ok body)
      else if marker == 1
      then (k', decompress_with d body)
      else (k, err decode_error)
