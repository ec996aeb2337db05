-- ===== src/Tests/Window.antt =====
-- A credit window of a thousand bytes.
use dlr.Prelude.{◌+◌, ◌-◌, ◌≤◌, ◌≡◌, arith, List, [], ◌∷◌}
use dlr.Transport.Flow.{
  CreditFlow, grant, reaim, Step, grants, takes, reaims, run, extended, run_never_oversells,
  grant_recalls, all_takes,
}

abbrev thousand : CreditFlow
thousand = record { available = 1000; capacity = 1000 }

abbrev traffic : List Step
traffic = takes 400 ∷ takes 700 ∷ grants 500 ∷ reaims 2000 ∷ takes 3000 ∷ []

run_never_oversells_example :
    (run traffic thousand).1 + (run traffic thousand).0.available ≤ 1000 + extended traffic 1000
run_never_oversells_example = run_never_oversells traffic thousand

-- Of a thousand bytes 300 are taken, and 600 of the rest are above the new window of 100.
grant_recalls_example :
    let (g, taken) = run (all_takes (200 ∷ 100 ∷ [])) (reaim 100 thousand) in
    (taken + g.available ≡ 1000)
    × (taken + (grant 0 g).available + (g.available + 0 - 100) ≡ 1000 + 0)
grant_recalls_example = grant_recalls thousand 100 0 (200 ∷ 100 ∷ []) (omega arith) (omega arith)
