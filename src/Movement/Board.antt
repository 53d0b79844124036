-- ===== src/Movement/Board.antt =====
-- movement.py (`advance_position`): the closed form on the board of the normal mode.
use monopoly_be.Prelude.{ℕ, suc, Bool, false, ◌==◌, Result, ok, err}
use monopoly_be.Movement.{err, suc, ok, Result, Bool}

-- The result `ok n`, as a test.
is_value : Result ℕ → ℕ → Bool
is_value (ok m) n = m == n
is_value (err e) n = false
