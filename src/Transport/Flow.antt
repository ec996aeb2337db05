-- ===== src/Transport/Flow.antt =====
-- crates/transport/src/flow.rs: the credit window. A compare-and-swap loop is the one step at which
-- the exchange succeeds, so that several senders and receivers are a sequence of steps.
use dlr.Prelude.{
  ℕ, ◌+◌, ◌-◌, ◌^◌, ◌≤◌, ◌<◌, ◌≡◌, refl, ap, ◌∙◌, arith, List, [], ◌∷◌, ltb, ◌==◌, if◌then◌else◌,
}

pub record CreditFlow : Type 0 where
  pub available : ℕ
  pub capacity : ℕ

unfoldable pub new_flow : ℕ → CreditFlow
new_flow window_bytes = record { available = window_bytes; capacity = window_bytes }

abbrev pub smaller : ℕ → ℕ → ℕ
smaller a b = if ltb a b then a else b

-- `u64::saturating_add`
abbrev pub saturating_add : ℕ → ℕ → ℕ
saturating_add a n = smaller (a + n) (2 ^ 64 - 1)

unfoldable pub grant : ℕ → CreditFlow → CreditFlow
grant n f = record f { available = smaller (saturating_add f.available n) f.capacity }

-- The bytes that were consumed come second.
unfoldable pub take : ℕ → CreditFlow → CreditFlow × ℕ
take n f =
    if f.available == 0
    then (f, 0)
    else (let give = smaller n f.available in (record f { available = f.available - give }, give))

unfoldable pub reaim : ℕ → CreditFlow → CreditFlow
reaim new_bdp f =
    let f' : CreditFlow = record f { capacity = new_bdp } in
    if ltb f.capacity new_bdp then grant (new_bdp - f.capacity) f' else f'

pub data Step : Type 0 where
  grants takes reaims : ℕ → Step

-- A sequence of steps of all parties, with the bytes that were consumed in total.
unfoldable pub run : List Step → CreditFlow → CreditFlow × ℕ
run [] f = (f, 0)
run (grants n ∷ steps) f = run steps (grant n f)
run (takes n ∷ steps) f =
    let (f', given) = take n f in let (f'', more) = run steps f' in (f'', given + more)
run (reaims n ∷ steps) f = run steps (reaim n f)

-- The credit that the steps extend: the grants, and the growth of the window.
unfoldable pub extended : List Step → ℕ → ℕ
extended [] capacity = 0
extended (grants n ∷ steps) capacity = n + extended steps capacity
extended (takes n ∷ steps) capacity = extended steps capacity
extended (reaims n ∷ steps) capacity = (n - capacity) + extended steps n

module _ (f : CreditFlow) (n : ℕ) where
  grant-le : (grant n f).available ≤ f.available + n
  unfolding grant
  grant-le = ground arith

  capacity-grant : (grant n f).capacity ≡ f.capacity
  unfolding grant
  capacity-grant = refl

  take_splits : (take n f).0.available + (take n f).1 ≡ f.available
  unfolding take
  take_splits = ground arith

  capacity-take : (take n f).0.capacity ≡ f.capacity
  unfolding take
  capacity-take = ground arith

  capacity-reaim : (reaim n f).capacity ≡ n
  unfolding reaim grant
  capacity-reaim = ground arith

  reaim-le : (reaim n f).available ≤ f.available + (n - f.capacity)
  unfolding reaim grant
  reaim-le = ground arith

-- Whatever grants, takes and changes of the window follow each other, the bytes that were consumed
-- and those that may still be consumed are together at most the credit at the start plus all that
-- was granted plus all that the window grew by.
pub run_never_oversells :
    (steps : List Step) (f : CreditFlow)
    → (run steps f).1 + (run steps f).0.available ≤ f.available + extended steps f.capacity
unfolding run extended
run_never_oversells [] f = omega arith
run_never_oversells (grants n ∷ steps) f = omega (
  arith,
  run_never_oversells steps (grant n f),
  ap (extended steps) (capacity-grant f n),
  grant-le f n,
)
run_never_oversells (takes n ∷ steps) f = omega (
  arith,
  run_never_oversells steps (take n f).0,
  ap (extended steps) (capacity-take f n),
  take_splits f n,
)
run_never_oversells (reaims n ∷ steps) f = omega (
  arith,
  run_never_oversells steps (reaim n f),
  ap (extended steps) (capacity-reaim f n),
  reaim-le f n,
)

-- A sender that takes again and again.
abbrev pub all_takes : List ℕ → List Step
all_takes [] = []
all_takes (n ∷ ns) = takes n ∷ all_takes ns

-- Takes split the credit into what was consumed and what is left, and leave the window alone.
run-all_takes :
    (ns : List ℕ) (f : CreditFlow)
    → ((run (all_takes ns) f).1 + (run (all_takes ns) f).0.available ≡ f.available)
      × ((run (all_takes ns) f).0.capacity ≡ f.capacity)
unfolding run
run-all_takes [] f = (omega arith, refl)
run-all_takes (n ∷ ns) f =
    let (split, window) = run-all_takes ns (take n f).0 in
    (omega (arith, split, take_splits f n), window ∙ capacity-take f n)

-- After the window has shrunk and a sender has taken any number of times, all that it took and all
-- that is left are together the credit of before, so that the shrinking recalled none. The next grant,
-- of any size, zero included, keeps what is left and adds its bytes to it, less exactly what would
-- come to lie above the new window: that much of the old credit and of the grant is lost.
pub grant_recalls :
    (f : CreditFlow) (new_bdp n : ℕ) (ns : List ℕ)
    → new_bdp ≤ f.capacity
    → new_bdp < 2 ^ 64
    → let (g, taken) = run (all_takes ns) (reaim new_bdp f) in
      (taken + g.available ≡ f.available)
      × (taken + (grant n g).available + (g.available + n - new_bdp) ≡ f.available + n)
unfolding reaim grant
grant_recalls f new_bdp n ns shrinks small =
    let kept : (reaim new_bdp f).available ≡ f.available = ground (arith, shrinks) in
    let (split, window) = run-all_takes ns (reaim new_bdp f) in
    let aim = window ∙ capacity-reaim f new_bdp in
    let whole = split ∙ kept in (whole, ground (arith, whole, aim, small))
