-- ===== src/Input/Queue.antt =====
-- The keyboard's queue between the interrupt and the reads.
use zenos.Common.{ℕ, zero, suc, ◌≡◌, refl, ap, List, [], ◌∷◌, ◌++◌, length, min, arith}
use zenos.Input.{tty_read_nonblocking}

-- A read takes the oldest bytes, as many as there are and as fit, and leaves the others in order.
pub tty_read_nonblocking-front :
    (len : ℕ) (queue : List ℕ)
    → ((tty_read_nonblocking len queue).0 ++ (tty_read_nonblocking len queue).1 ≡ queue)
      × (length (tty_read_nonblocking len queue).0 ≡ min len (length queue))
unfolding tty_read_nonblocking
tty_read_nonblocking-front zero queue = (refl, omega arith)
tty_read_nonblocking-front (suc len) [] = (refl, omega arith)
tty_read_nonblocking-front (suc len) (b ∷ queue) = (
  ap (◌∷◌ b) (tty_read_nonblocking-front len queue).0,
  omega (arith, (tty_read_nonblocking-front len queue).1),
)
