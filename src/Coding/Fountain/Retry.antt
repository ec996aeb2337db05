-- ===== src/Coding/Fountain/Retry.antt =====
-- A decoder that is asked again after it had too few symbols.
use dlr.Prelude.{
  set_at, ℕ, ◌<◌, Bool, ◌≡◌, refl, ap, ◌∙◌, arith, List, [], ◌∷◌, ◌++◌, length, nat_eq,
}
use dlr.Prelude.Results.{Result, ok, err}
use dlr.Prelude.Assoc.{lookup, remove}
use dlr.Core.Bytes.{Bytes}
use dlr.Coding.Gf256.{
  gf_inv, gf_scal_slice, gf_axpy_slice, xor_with, log_of, written_log, exp_table, walk, next_power,
}
use dlr.Coding.Gf256.Gauss.{gf_gauss_eliminate, gauss_columns, find_pivot}
use dlr.Coding.Fountain.{
  FountainError, underdetermined, ParsedSym, FountainDecoder, new_decoder, add, decode,
  peel_symbols, peel, start_peel, reveal, ripple, ripple_one, find_target, all_covers, covering,
  degree_one, unrevealed, unknowns_from, solve_residual, residual_rows, residual_coeffs, write_rows,
}
use dlr.Coding.Fountain.Encoder.{systematic}
use dlr.Coding.Fountain.Units.{unit_sym, add-systematic}

-- The decoder behind a symbol.
abbrev pub added : Bytes → FountainDecoder → FountainDecoder
added wire d = (add wire d).0

abbrev Asked : Type 0
Asked = FountainDecoder × Result FountainError (List Bytes)

module _ (b : ℕ) (bs : Bytes) where
  -- The first source twice: its payload is taken, and nothing is left of the second.
  first_twice :
      decode (record {
        k = 2;
        symbol_size = length (b ∷ bs);
        syms = unit_sym 0 (b ∷ bs) ∷ unit_sym 0 (b ∷ bs) ∷ [];
      })
      ≡ (
        record {
          k = 2;
          symbol_size = length (b ∷ bs);
          syms =
              record { cover = (0, 1) ∷ []; payload = [] }
              ∷ record { cover = []; payload = xor_with (λ x. x) (b ∷ bs) (b ∷ bs) }
              ∷ [];
        },
        err (underdetermined 0 1),
      )
  unfolding decode peel_symbols peel start_peel reveal ripple ripple_one find_target all_covers
      covering degree_one unrevealed unknowns_from solve_residual residual_rows residual_coeffs
      write_rows gf_gauss_eliminate gauss_columns find_pivot set_at gf_inv gf_scal_slice
      gf_axpy_slice xor_with log_of written_log exp_table walk next_power lookup remove
  first_twice = ground arith

  -- Then the second source: the first is found again, from the payload that was taken.
  then_second :
      (c : ℕ) (cs : Bytes)
      → (decode (record {
        k = 2;
        symbol_size = length (b ∷ bs);
        syms =
            record { cover = (0, 1) ∷ []; payload = [] }
            ∷ record { cover = []; payload = xor_with (λ x. x) (b ∷ bs) (b ∷ bs) }
            ∷ unit_sym 1 (c ∷ cs)
            ∷ [];
      })).1
        ≡ ok ([] ∷ (c ∷ cs) ∷ [])
  unfolding decode peel_symbols peel start_peel reveal ripple ripple_one find_target all_covers
      covering degree_one unrevealed unknowns_from set_at gf_inv gf_scal_slice log_of written_log
      exp_table walk next_power lookup
  then_second c cs = refl

  all_three :
      (c : ℕ) (cs : Bytes)
      → (decode (record {
        k = 2;
        symbol_size = length (b ∷ bs);
        syms = unit_sym 0 (b ∷ bs) ∷ unit_sym 0 (b ∷ bs) ∷ unit_sym 1 (c ∷ cs) ∷ [];
      })).1
        ≡ ok ((b ∷ bs) ∷ (c ∷ cs) ∷ [])
  unfolding decode peel_symbols peel start_peel reveal ripple ripple_one find_target all_covers
      covering degree_one unrevealed unknowns_from set_at gf_inv gf_scal_slice gf_axpy_slice log_of
      written_log exp_table walk next_power lookup remove
  all_three c cs = refl

  abbrev holding : List ParsedSym → FountainDecoder
  holding syms = record { k = 2; symbol_size = length (b ∷ bs); syms = syms }

  taken :
      (i : ℕ) (src : Bytes) (syms : List ParsedSym)
      → i < 2
      → length src ≡ length (b ∷ bs)
      → added (systematic i src) (holding syms) ≡ holding (syms ++ (unit_sym i src ∷ []))
  taken i src syms known size =
      ap (λ (r : FountainDecoder × Result FountainError Bool). r.0)
        (add-systematic i src (holding syms) known (omega (arith, known)) size)

  abbrev pub twice : FountainDecoder
  twice =
      added (systematic 0 (b ∷ bs))
        (added (systematic 0 (b ∷ bs)) (new_decoder 2 (length (b ∷ bs))))

  twice-holding : twice ≡ holding (unit_sym 0 (b ∷ bs) ∷ unit_sym 0 (b ∷ bs) ∷ [])
  unfolding new_decoder
  twice-holding =
      ap (added (systematic 0 (b ∷ bs))) (taken 0 (b ∷ bs) [] (omega arith) refl)
      ∙ taken 0 (b ∷ bs) (unit_sym 0 (b ∷ bs) ∷ []) (omega arith) refl

  -- In a generation of two symbols, let the first arrive twice, and the decoder be asked: it has too
  -- few. When then the second arrives and the decoder is asked again, it returns the empty symbol for
  -- the first, whatever the symbols are, while a decoder that is asked only once, with the same three
  -- symbols, returns both.
  pub decode_again :
      (c : ℕ) (cs : Bytes)
      → length cs ≡ length bs
      → ((decode twice).1 ≡ err (underdetermined 0 1))
        × ((decode (added (systematic 1 (c ∷ cs)) (decode twice).0)).1 ≡ ok ([] ∷ (c ∷ cs) ∷ []))
        × ((decode (added (systematic 1 (c ∷ cs)) twice)).1 ≡ ok ((b ∷ bs) ∷ (c ∷ cs) ∷ []))
  decode_again c cs same =
      let second = systematic 1 (c ∷ cs) in
      let size : length (c ∷ cs) ≡ length (b ∷ bs) = omega (arith, same) in
      (
        ap (λ d. (decode d).1) twice-holding ∙ ap (λ (r : Asked). r.1) first_twice,
        ap (λ d. (decode (added second (decode d).0)).1) twice-holding
            ∙ ap (λ (r : Asked). (decode (added second r.0)).1) first_twice
            ∙ ap (λ d. (decode d).1) (taken 1 (c ∷ cs) _ (omega arith) size)
            ∙ then_second c cs,
        ap (λ d. (decode (added second d)).1) twice-holding
            ∙ ap (λ d. (decode d).1) (taken 1 (c ∷ cs) _ (omega arith) size)
            ∙ all_three c cs,
      )
