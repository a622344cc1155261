-- ===== src/Common/Printf/Tests.antt =====
-- Runs of the printer, and its theorem at a concrete number.
use evisor.Prelude.{List, arith, false, some, ℕ, ◌≡◌}
use evisor.Common.Printf.{to_digits}
use evisor.Common.Printf.Digits.{parse, to_digits-parse}

to_digits-parse_example :
    (cs : List ℕ) × (to_digits 32 48879 16 false ≡ some cs) × (parse 16 cs ≡ some 48879)
to_digits-parse_example =
    to_digits-parse 32 48879 16 false (omega arith) (omega arith) (omega arith) (omega arith)
