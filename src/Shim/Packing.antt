-- ===== src/Shim/Packing.antt =====
-- The compressor of crates/compress as the shim's, and as the receiver's.
use dlr.Prelude.{◌≡◌, Option, none, some}
use dlr.Prelude.Results.{Result, ok, err}
use dlr.Core.Bytes.{Bytes}
use dlr.Core.Blake3.{Blake3}
use dlr.Core.Block.{Block}
use dlr.Core.Canonical.{canonical_bytes}
use dlr.Core.Canonical.Laws.{IsBlock}
use dlr.Compress.{Zstd, CompressError, Compressor, with_level, raw_dict}
use dlr.Compress.Cached.{fresh_compress, fresh_decompress, fresh_decompress-fresh_compress}
use dlr.Receiver.{Codec}
use dlr.Shim.{Packer, Filter}
use dlr.Shim.Emit.{Packs}

abbrev pub to_option : Result CompressError Bytes → Option Bytes
to_option (ok z) = some z
to_option (err e) = none

module _ (zstd : Zstd) where
  abbrev pub zstd_packer : Packer
  zstd_packer = record {
    Compressor = Compressor;
    with_level = with_level;
    compress = λ c x. to_option (fresh_compress zstd c x);
  }

  -- The receiver's decompression, with a compressor of its own.
  abbrev pub with_decompress : Compressor → Codec → Codec
  with_decompress c codec = record codec { decompress = λ z. to_option (fresh_decompress zstd c z) }

  -- A valid block that is compressed without an error is unpacked by a receiver with the same
  -- dictionary, if a decoder for it can be built.
  pub zstd_packer-Packs :
      (filter : Filter) (codec : Codec) (blake3 : Blake3) (c c' : Compressor) (d : zstd.Decoder)
      (b : Block) (z : Bytes)
      → c'.dict ≡ c.dict
      → zstd.decoder (raw_dict c.dict.content) ≡ some d
      → IsBlock b
      → fresh_compress zstd c (canonical_bytes b) ≡ ok z
      → Packs zstd_packer filter (with_decompress c' codec) blake3 c b
  zstd_packer-Packs filter codec blake3 c c' d b z same hd valid hz =
      let back = fresh_decompress-fresh_compress zstd c c' d (canonical_bytes b) z same hd hz in
      record { valid = valid; packed = z; packs = rw hz; unpacks = rw back }
