-- ===== src/Pipe/Close.antt =====
-- The ends of a pipe: when its page is freed, and what the other end sees.
use pplottery.Prelude.{ℕ, suc, ◌≡◌, refl, Option, Bool, true, false, not, arith}
use pplottery.Pipe.{Pipe, write_failed, write_loop, pipeclose}

-- The page of a pipe with both ends open is freed by the second of two closes of different ends,
-- in either order, and not by the first. After the read end is closed every write of at least one
-- byte fails and leaves the pipe as it is.
pipeclose_lem :
    (pi : Pipe)
    → pi.readopen ≡ true
    → pi.writeopen ≡ true
    → (w : Bool)
    → ((pipeclose w pi).2 ≡ false)
      × ((pipeclose (not w) (pipeclose w pi).1).2 ≡ true)
      × ((k i : ℕ) (src : ℕ → Option ℕ) (killed : ℕ → Bool)
          → write_loop (suc k) i src killed (pipeclose false pi).1
            ≡ write_failed (pipeclose false pi).1)
unfolding pipeclose write_loop
pipeclose_lem pi r wr true = (ground arith, ground arith, (λ k i src killed. refl))
pipeclose_lem pi r wr false = (ground arith, ground arith, (λ k i src killed. refl))
