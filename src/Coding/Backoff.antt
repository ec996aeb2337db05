-- ===== src/Coding/Backoff.antt =====
-- crates/coding/src/fib_backoff.rs: the congestion window. The factor of a loss is a floating-point
-- number in the code; what it does to the window is a function here.
use dlr.Prelude.{ℕ, ◌+◌, ◌-◌, ◌^◌, ◌≤◌, arith, List, [], ◌∷◌, ltb, if◌then◌else◌}

pub record FibBackoff : Type 0 where
  pub window : ℕ
  pub fib_a : ℕ
  pub fib_b : ℕ
  pub max : ℕ
  pub md_factor : ℕ → ℕ

unfoldable pub new_backoff : (ℕ → ℕ) → ℕ → ℕ → FibBackoff
new_backoff half initial max = record {
  window = initial;
  fib_a = 1;
  fib_b = 1;
  max = max;
  md_factor = half;
}

abbrev pub at_most : ℕ → ℕ → ℕ
at_most a b = if ltb a b then a else b

unfoldable pub on_success : FibBackoff → FibBackoff
on_success f = record {
  window = at_most (at_most (f.window + f.fib_b) (2 ^ 64 - 1)) f.max;
  fib_a = f.fib_b;
  fib_b = at_most (f.fib_a + f.fib_b) (2 ^ 64 - 1);
  max = f.max;
  md_factor = f.md_factor;
}

unfoldable pub on_loss : FibBackoff → FibBackoff
on_loss f = record f { window = f.md_factor f.window; fib_a = 1; fib_b = 1 }

unfoldable pub on_timeout : ℕ → FibBackoff → FibBackoff
on_timeout initial f = record f { window = initial; fib_a = 1; fib_b = 1 }

pub data Event : Type 0 where
  success loss : Event
  timeout : ℕ → Event

unfoldable pub after : List Event → FibBackoff → FibBackoff
after [] f = f
after (success ∷ events) f = after events (on_success f)
after (loss ∷ events) f = after events (on_loss f)
after (timeout n ∷ events) f = after events (on_timeout n f)

-- A timeout to a window within the bound.
abbrev pub IsWithin : ℕ → List Event → Type 0
IsWithin max [] = Unit {0}
IsWithin max (success ∷ events) = IsWithin max events
IsWithin max (loss ∷ events) = IsWithin max events
IsWithin max (timeout n ∷ events) = (n ≤ max) × IsWithin max events

-- If the factor of a loss never enlarges the window, the window is within the bound at the start and
-- every timeout resets it to a value within the bound, then it is within the bound after any sequence
-- of successes, losses and timeouts.
pub after_bounded :
    (events : List Event) (f : FibBackoff)
    → ((w : ℕ) → f.md_factor w ≤ w)
    → f.window ≤ f.max
    → IsWithin f.max events
    → (after events f).window ≤ f.max
unfolding after on_success on_loss on_timeout
after_bounded [] f shrinks h within = h
after_bounded (success ∷ events) f shrinks h within =
    after_bounded events (on_success f) shrinks (ground arith) within
after_bounded (loss ∷ events) f shrinks h within =
    after_bounded events (on_loss f) shrinks (omega (arith, shrinks f.window)) within
after_bounded (timeout n ∷ events) f shrinks h within =
    after_bounded events (on_timeout n f) shrinks within.0 within.1
