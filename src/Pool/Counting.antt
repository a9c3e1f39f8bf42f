-- ===== src/Pool/Counting.antt =====
-- Sums over the threads of a pool when all are woken.
use distributed_nas.Base.{total, ℕ, ◌+◌, ◌≡◌, refl, ap, List, [], ◌∷◌, arith, map}
use distributed_nas.Pool.{Worker, wake, starting, idle, checked, asleep, woken, ended, running}

pub total-map-wake :
    (f : Worker → ℕ) (ws : List Worker) → f asleep ≡ f woken → total f (map wake ws) ≡ total f ws
total-map-wake f [] e = refl
total-map-wake f (starting ∷ ws) e = ap (λ n. f starting + n) (total-map-wake f ws e)
total-map-wake f (idle ∷ ws) e = ap (λ n. f idle + n) (total-map-wake f ws e)
total-map-wake f (checked ∷ ws) e = ap (λ n. f checked + n) (total-map-wake f ws e)
total-map-wake f (asleep ∷ ws) e = omega (arith, e, total-map-wake f ws e)
total-map-wake f (woken ∷ ws) e = ap (λ n. f woken + n) (total-map-wake f ws e)
total-map-wake f (ended ∷ ws) e = ap (λ n. f ended + n) (total-map-wake f ws e)
total-map-wake f (running t ∷ ws) e = ap (λ n. f (running t) + n) (total-map-wake f ws e)
