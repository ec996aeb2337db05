-- ===== src/Compress/Cached.antt =====
-- The compressor with its cached contexts against one that builds a context for every call.
use dlr.Prelude.{
  [], ℕ, ◌≡◌, ◌⊎◌, refl, sym, ap, ◌∙◌, arith, Option, some, ◌==◌, ltb, leb, ◌≤◌, ◌+◌, length, ◌∷◌,
  Bool-cases, Option-cases, inl, inr, if◌then◌else◌,
}
use dlr.Prelude.Results.{Result, ok, err}
use dlr.Core.Bytes.{Bytes}
use dlr.Compress.{
  Zstd, CompressError, decode_error, Compressor, Contexts, raw_dict, cached_encoder, cached_decoder,
  use_encoder, use_decoder, mark, compress, compress_with, capacity, decompress, decompress_with,
}

module _ (zstd : Zstd) where
  -- A compression without a cache.
  unfoldable pub fresh_compress : Compressor → Bytes → Result CompressError Bytes
  fresh_compress c input =
      if ltb (length input) c.min_block
      then ok (0 ∷ input)
      else compress_with zstd (zstd.encoder c.level (raw_dict c.dict.content)) input

  module _ (dict_of : ℕ → Option Bytes) where
    -- A dictionary id stands for one content.
    abbrev pub Registered : Compressor → Type 0
    Registered c = raw_dict c.dict.content ≡ dict_of c.dict.id

    -- Each cached context was built for what it is filed under.
    pub record IsConsistent (k : Contexts zstd) : Type 0 where
      pub enc :
          (level id : ℕ) (e : zstd.Encoder)
          → k.enc ≡ some (level, id, e)
          → zstd.encoder level (dict_of id) ≡ some e
      pub dec :
          (id : ℕ) (d : zstd.Decoder) → k.dec ≡ some (id, d) → zstd.decoder (dict_of id) ≡ some d

    module _ (c : Compressor) (k : Contexts zstd) (reg : Registered c) (h : IsConsistent k) where
      cached_encoder_built :
          (e : zstd.Encoder)
          → cached_encoder zstd c k ≡ some e
          → zstd.encoder c.level (raw_dict c.dict.content) ≡ some e
      unfolding cached_encoder
      cached_encoder_built e eq = elim (Option-cases k.enc) [
        | inl p ↦ absurd (cc (rw (p, cached_encoder) at eq))
        | inr ((level, id, e'), p) ↦
            let got = rw (p, cached_encoder) at eq in
            let same : level ≡ c.level = ground (arith, got) in
            let same' : id ≡ c.dict.id = ground (arith, got) in
            let is : e' ≡ e = ground (arith, got) in
            rw (reg, sym same, sym same', sym is) (h.enc level id e' p)
      ]

      cached_decoder_built :
          (d : zstd.Decoder)
          → cached_decoder zstd c k ≡ some d
          → zstd.decoder (raw_dict c.dict.content) ≡ some d
      unfolding cached_decoder
      cached_decoder_built d eq = elim (Option-cases k.dec) [
        | inl p ↦ absurd (cc (rw (p, cached_decoder) at eq))
        | inr ((id, d'), p) ↦
            let got = rw (p, cached_decoder) at eq in
            let same : id ≡ c.dict.id = ground (arith, got) in
            let is : d' ≡ d = ground (arith, got) in rw (reg, sym same, sym is) (h.dec id d' p)
      ]

      use_encoder_lem :
          ((use_encoder zstd c k).1 ≡ zstd.encoder c.level (raw_dict c.dict.content))
          × IsConsistent (use_encoder zstd c k).0
      unfolding use_encoder
      use_encoder_lem = elim (Option-cases (cached_encoder zstd c k)) [
        | inr (e, p) ↦ rw (p, use_encoder) (sym (cached_encoder_built e p), h)
        | inl p ↦ elim (Option-cases (zstd.encoder c.level (raw_dict c.dict.content))) [
          | inl q ↦ rw (p, q, use_encoder) (refl, h)
          | inr (e, q) ↦
              rw (p, q, use_encoder)
                (
                  refl,
                  record {
                    enc = λ level id e' eq.
                        let same : level ≡ c.level = ground (arith, eq) in
                        let same' : id ≡ c.dict.id = ground (arith, eq) in
                        let is : e' ≡ e = ground (arith, eq) in rw (same, same', is, sym reg) q;
                    dec = h.dec;
                  },
                )
        ]
      ]

      use_decoder_lem :
          ((use_decoder zstd c k).1 ≡ zstd.decoder (raw_dict c.dict.content))
          × IsConsistent (use_decoder zstd c k).0
      unfolding use_decoder
      use_decoder_lem = elim (Option-cases (cached_decoder zstd c k)) [
        | inr (d, p) ↦ rw (p, use_decoder) (sym (cached_decoder_built d p), h)
        | inl p ↦ elim (Option-cases (zstd.decoder (raw_dict c.dict.content))) [
          | inl q ↦ rw (p, q, use_decoder) (refl, h)
          | inr (d, q) ↦
              rw (p, q, use_decoder)
                (
                  refl,
                  record {
                    enc = h.enc;
                    dec = λ id d' eq.
                        let same : id ≡ c.dict.id = ground (arith, eq) in
                        let is : d' ≡ d = ground (arith, eq) in rw (same, is, sym reg) q;
                  },
                )
        ]
      ]

      -- With a registered dictionary and contexts that were built for what they are filed under, a
      -- compression gives what it gives without a cache, and the contexts are such again.
      pub compress-fresh_compress :
          (x : Bytes)
          → ((compress zstd c x k).1 ≡ fresh_compress c x) × IsConsistent (compress zstd c x k).0
      unfolding compress fresh_compress
      compress-fresh_compress x = elim (Bool-cases (ltb (length x) c.min_block)) [
        | inl p ↦ rw (p, compress, fresh_compress) (refl, h)
        | inr p ↦ rw (p, compress, fresh_compress) (rw use_encoder_lem.0 refl, use_encoder_lem.1)
      ]

  -- A frame of this encoder is decoded by a decoder with the same dictionary.
  decompress_with-encode :
      (level : ℕ) (dict : Option Bytes) (e : zstd.Encoder) (d : zstd.Decoder) (x z : Bytes)
      → zstd.encoder level dict ≡ some e
      → zstd.decoder dict ≡ some d
      → zstd.encode e x ≡ some z
      → decompress_with zstd (some d) z ≡ ok x
  unfolding decompress_with capacity
  decompress_with-encode level dict e d x z he hd hz = rw (
    decompress_with,
    capacity,
    zstd.content_size-encode e x z hz,
    zstd.decode-encode level dict e d x z he hd hz,
  )

  -- What a compression gives: the marked input, or the marked frame.
  fresh_compress-cases :
      (c : Compressor) (x z : Bytes)
      → fresh_compress c x ≡ ok z
      → (z ≡ 0 ∷ x)
        ⊎ ((e : zstd.Encoder) × (y : Bytes) × (zstd.encoder c.level (raw_dict c.dict.content)
              ≡ some e)
            × (zstd.encode e x ≡ some y)
            × (z ≡ 1 ∷ y)
            × (length y + 1 ≤ length x))
  unfolding fresh_compress compress_with mark
  fresh_compress-cases c x z h = elim (Bool-cases (ltb (length x) c.min_block)) [
    | inl p ↦ inl (ground (arith, rw (p, fresh_compress) at h))
    | inr p ↦ elim (Option-cases (zstd.encoder c.level (raw_dict c.dict.content))) [
      | inl q ↦ absurd (cc (rw (p, q, fresh_compress, compress_with) at h))
      | inr (e, q) ↦ elim (Option-cases (zstd.encode e x)) [
        | inl s ↦ absurd (cc (rw (p, q, s, fresh_compress, compress_with) at h))
        | inr (y, s) ↦
            let got = rw (p, q, s, fresh_compress, compress_with) at h in
            elim (Bool-cases (leb (length x) (length y + 1))) [
              | inl t ↦ inl (ground (arith, rw (t, mark) at got))
              | inr t ↦ inr (e, y, q, s, ground (arith, rw (t, mark) at got), ground (arith, t))
            ]
      ]
    ]
  ]

  -- A compressed block is never empty, and one byte longer than the block at most.
  pub length-compress :
      (c : Compressor) (x z : Bytes)
      → fresh_compress c x ≡ ok z
      → (1 ≤ length z) × (length z ≤ length x + 1)
  length-compress c x z h = elim (fresh_compress-cases c x z h) [
    | inl p ↦ (omega (arith, ap length p), omega (arith, ap length p))
    | inr (e, y, _, _, p, n) ↦ (omega (arith, ap length p), omega (arith, n, ap length p))
  ]

  -- A decompression without a cache.
  unfoldable pub fresh_decompress : Compressor → Bytes → Result CompressError Bytes
  fresh_decompress c [] = err decode_error
  fresh_decompress c (marker ∷ body) =
      if marker == 0
      then ok body
      else if marker == 1
      then decompress_with zstd (zstd.decoder (raw_dict c.dict.content)) body
      else err decode_error

  -- With a registered dictionary and contexts that were built for what they are filed under, a
  -- decompression gives what it gives without a cache, and the contexts are such again; the empty input and a marker other than 0 and 1 are
  -- refused.
  pub decompress-fresh_decompress :
      (dict_of : ℕ → Option Bytes) (c : Compressor) (k : Contexts zstd) (z : Bytes)
      → Registered dict_of c
      → IsConsistent dict_of k
      → ((decompress zstd c z k).1 ≡ fresh_decompress c z)
        × IsConsistent dict_of (decompress zstd c z k).0
  unfolding decompress fresh_decompress
  decompress-fresh_decompress dict_of c k [] reg h = (refl, h)
  decompress-fresh_decompress dict_of c k (marker ∷ body) reg h = elim (Bool-cases (marker == 0)) [
    | inl e ↦ rw (e, decompress, fresh_decompress) (refl, h)
    | inr e ↦ elim (Bool-cases (marker == 1)) [
      | inr e' ↦ rw (e, e', decompress, fresh_decompress) (refl, h)
      | inl e' ↦
          let (used, kept) = use_decoder_lem dict_of c k reg h in
          rw (e, e', decompress, fresh_decompress) (rw used refl, kept)
    ]
  ]

  pub fresh_decompress-fresh_compress :
      (c c' : Compressor) (d : zstd.Decoder) (x z : Bytes)
      → c'.dict ≡ c.dict
      → zstd.decoder (raw_dict c.dict.content) ≡ some d
      → fresh_compress c x ≡ ok z
      → fresh_decompress c' z ≡ ok x
  unfolding fresh_decompress
  fresh_decompress-fresh_compress c c' d x z same hd hz = elim (fresh_compress-cases c x z hz) [
    | inl p ↦ rw (p, fresh_decompress)
    | inr (e, y, he, hy, p, _) ↦
        rw (p, fresh_decompress, same, hd) (decompress_with-encode c.level _ e d x y he hd hy)
  ]

  -- Compressing a block at any level and then decompressing it, on threads with any contexts that
  -- were built for what they are filed under, gives the block back, if both compressors have the
  -- same registered dictionary and a decoder for it can be built.
  pub decompress-compress :
      (dict_of : ℕ → Option Bytes) (c c' : Compressor) (k k' : Contexts zstd) (d : zstd.Decoder)
      (x z : Bytes)
      → Registered dict_of c
      → c'.dict ≡ c.dict
      → IsConsistent dict_of k
      → IsConsistent dict_of k'
      → zstd.decoder (raw_dict c.dict.content) ≡ some d
      → (compress zstd c x k).1 ≡ ok z
      → (decompress zstd c' z k').1 ≡ ok x
  decompress-compress dict_of c c' k k' d x z reg same hk hk' hd hz =
      let fresh = sym (compress-fresh_compress dict_of c k reg hk x).0 ∙ hz in
      let reg' : Registered dict_of c' = rw same reg in
      (decompress-fresh_decompress dict_of c' k' z reg' hk').0
      ∙ fresh_decompress-fresh_compress c c' d x z same hd fresh
