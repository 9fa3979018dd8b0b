-- ===== src/Protocol/Cleanup.antt =====
-- The end of coordinator/cli.rs and of dkg/cli.rs: the cleanup after an error.
use frost_tools.Prelude.{◌≡◌, ◌≢◌, ap, Outcome, ok, err, panic, Method}

-- Whatever the cleanup returns, the error stays.
unfoldable pub after_cleanup : {E A : Type 0} → E → Outcome E (Unit {0}) → Outcome E A
after_cleanup e panic = panic
after_cleanup e r = err e

unfoldable pub cleaned : {E S A : Type 0} → Method E S (Unit {0}) → Outcome E A → Method E S A
cleaned cleanup (ok a) s = (ok a, s)
cleaned cleanup (err e) s = let (r, t) = cleanup s in (after_cleanup e r, t)
cleaned cleanup panic s = (panic, s)

after_cleanup-ok :
    {E A : Type 0} (e : E) (r : Outcome E (Unit {0})) (a : A) → after_cleanup e r ≢ ok a
unfolding after_cleanup
after_cleanup-ok e (ok u) a h = cc
after_cleanup-ok e (err x) a h = cc
after_cleanup-ok e panic a h = cc

pub cleaned-ok :
    {E S A : Type 0} (cleanup : Method E S (Unit {0})) (x : Outcome E A × S) (a : A) (t : S)
    → cleaned cleanup x.0 x.1 ≡ (ok a, t)
    → x ≡ (ok a, t)
unfolding cleaned
cleaned-ok cleanup (ok b, s) a t e = e
cleaned-ok cleanup (panic, s) a t e = cc
cleaned-ok cleanup (err b, s) a t e = absurd (after_cleanup-ok b (cleanup s).0 a (ap (λ x. x.0) e))
