-- ===== src/Prelude/Finite.antt =====
-- A test that holds of every number below a bound, found by running it.
use my_pl.Prelude.{ℕ, zero, suc, ◌<◌, ◌≡◌, Bool, true, ◌&&◌, arith}

unfoldable pub every : (ℕ → Bool) → ℕ → Bool
every test zero = true
every test (suc bound) = every test bound && test bound

pub every-lt :
    (test : ℕ → Bool) {bound : ℕ} (i : ℕ) → i < bound → every test bound ≡ true → test i ≡ true
unfolding every
every-lt test {bound = zero} i lt all = absurd (omega arith)
every-lt test {bound = suc bound} i lt all = ground (arith, every-lt test {bound = bound} i)
