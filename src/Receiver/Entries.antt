-- ===== src/Receiver/Entries.antt =====
-- The receiver's map of session states.
use dlr.Prelude.{ℕ, ◌==◌, ◌≡◌, arith, if◌then◌else◌, nat_eq, Bool-cases, inl, inr, ==_iff}
use dlr.Prelude.Assoc.{Assoc, insert, lookup-insert}
use dlr.Receiver.{Codec, SessionState, session_entry}

module _ (codec : Codec) (sid : ℕ) (st : SessionState codec)
    (m : Assoc ℕ (SessionState codec)) where
  pub session_entry-insert :
      (j : ℕ)
      → session_entry codec j (insert sid st m) ≡ (if sid == j then st else session_entry codec j m)
  unfolding session_entry
  session_entry-insert j = ground (arith, lookup-insert sid j st m)

  pub session_entry-insert_self : session_entry codec sid (insert sid st m) ≡ st
  session_entry-insert_self = ground (arith, session_entry-insert sid)

-- A session's state that is written back with the pending set that it had.
pub pending-insert :
    (codec : Codec) (sid : ℕ) (st : SessionState codec) (m : Assoc ℕ (SessionState codec)) (j : ℕ)
    → st.pending ≡ (session_entry codec sid m).pending
    → (session_entry codec j (insert sid st m)).pending ≡ (session_entry codec j m).pending
pending-insert codec sid st m j e = elim (Bool-cases (sid == j)) [
  | inl same ↦ rw (session_entry-insert, same, e, (==_iff sid j).0 same)
  | inr other ↦ rw (session_entry-insert, other)
]
