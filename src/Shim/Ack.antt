-- ===== src/Shim/Ack.antt =====
-- What an ACK does to a session of the shim.
use dlr.Prelude.{
  ℕ, ◌≡◌, ◌≤◌, ◌⊎◌, refl, sym, ◌∙◌, arith, length, true, false, bytes_eq, bytes_eq_iff, Bool-cases,
  Option-cases, inl, inr, take-length,
}
use dlr.Core.Blake3.{Blake3}
use dlr.Core.Merkle.{MerkleRoot, root_zero}
use dlr.Core.Wal.{Disk}
use dlr.Shim.{Packer, Filter, SessionShim, find_prefix, apply_ack}
use dlr.Shim.Roots.{IsRooted, prefix_root, find_prefix-some, find_prefix-none}

module _ (packer : Packer) (filter : Filter) (blake3 : Blake3) (disk : Disk) (acked : MerkleRoot)
    (s : SessionShim packer) where
  -- An ACK that is taken makes the acknowledged root the base.
  pub record Advanced (s' : SessionShim packer) : Type 0 where
    pub base : s'.base_root ≡ acked
    pub prefix : prefix_root blake3 s'.base_len s.ids ≡ acked
    pub fits : s'.base_len ≤ length s.ids
    pub ids : s'.ids ≡ s.ids
    pub root : s'.root ≡ s.root

  -- In a session whose roots are those of its ids, an ACK either returns true, and the acknowledged
  -- root is that of some prefix of the session's ids and becomes the base, with the log and the
  -- root as they were; or it returns false, the session is as it was, and the acknowledged root is
  -- not the root of any prefix but, possibly, the empty one.
  pub apply_ack_lem :
      IsRooted packer filter blake3 disk s
      → (((apply_ack packer blake3 acked s).1 ≡ true)
          × Advanced (apply_ack packer blake3 acked s).0)
        ⊎ (((apply_ack packer blake3 acked s).1 ≡ false)
            × ((apply_ack packer blake3 acked s).0 ≡ s)
            × ((n : ℕ)
                → 1 ≤ n
                → n ≤ length s.ids
                → bytes_eq (prefix_root blake3 n s.ids) acked ≡ false))
  unfolding apply_ack
  apply_ack_lem h = elim (Bool-cases (bytes_eq acked s.root)) [
    | inl e ↦ inl (
        rw (e, apply_ack)
          (
            refl,
            record {
              base = refl;
              prefix = rw take-length (sym h.root ∙ sym ((bytes_eq_iff acked s.root).0 e));
              fits = omega arith;
              ids = refl;
              root = refl;
            },
          ))
    | inr e ↦ elim (Bool-cases (bytes_eq acked s.base_root)) [
      | inl e' ↦
          let same = sym ((bytes_eq_iff acked s.base_root).0 e') in
          inl (
            rw (e, e', apply_ack)
              (
                refl,
                record {
                  base = same;
                  prefix = sym h.base ∙ same;
                  fits = h.fits;
                  ids = refl;
                  root = refl;
                },
              ))
      | inr e' ↦ elim (Option-cases (find_prefix blake3 acked root_zero 0 s.ids)) [
        | inl p ↦ inr (
            rw (e, e', p, apply_ack)
              (refl, refl, λ n l g. find_prefix-none blake3 acked root_zero 0 s.ids n p l g))
        | inr (n, p) ↦
            let (m, is, le, root) = find_prefix-some blake3 acked root_zero 0 s.ids n p in
            let same : n ≡ m = omega (arith, is) in
            inl (
              rw (e, e', p, apply_ack)
                (
                  refl,
                  record {
                    base = refl;
                    prefix = rw same root;
                    fits = omega (arith, le, same);
                    ids = refl;
                    root = refl;
                  },
                ))
      ]
    ]
  ]
