-- ===== src/Pool/Workers.antt =====
-- Which workers live and which have registered, and lists of workers.
use distributed_nas.Base.{
  ℕ, zero, suc, ◌≡◌, refl, Bool, true, false, List, [], ◌∷◌, ◌++◌, Option, none, some, map, arith,
  set, get_elem?, ◌==◌, if◌then◌else◌,
}
use distributed_nas.Pool.{Worker, starting, idle, checked, asleep, woken, ended, running, wake}

abbrev pub alive : Worker → ℕ
alive ended = 0
alive w = 1

abbrev pub is_registered : Option Worker → Bool
is_registered none = false
is_registered (some starting) = false
is_registered (some ended) = false
is_registered (some w) = true

pub get_elem?-set :
    (ws : List Worker) (i j : ℕ) (w v : Worker)
    → get_elem? ws i ≡ some w
    → get_elem? (set ws i v) j ≡ (if i == j then some v else get_elem? ws j)
get_elem?-set [] i j w v e = cc
get_elem?-set (u ∷ ws) zero zero w v e = refl
get_elem?-set (u ∷ ws) zero (suc j) w v e = ground arith
get_elem?-set (u ∷ ws) (suc i) zero w v e = ground arith
get_elem?-set (u ∷ ws) (suc i) (suc j) w v e = ground (arith, get_elem?-set ws i j w v e)

pub registered-append :
    (ws : List Worker) (j : ℕ)
    → is_registered (get_elem? (ws ++ starting ∷ []) j) ≡ is_registered (get_elem? ws j)
registered-append [] zero = refl
registered-append [] (suc j) = refl
registered-append (w ∷ ws) zero = refl
registered-append (w ∷ ws) (suc j) = registered-append ws j

pub registered-wake : (w : Worker) → is_registered (some (wake w)) ≡ is_registered (some w)
registered-wake asleep = refl
registered-wake starting = refl
registered-wake idle = refl
registered-wake checked = refl
registered-wake woken = refl
registered-wake ended = refl
registered-wake (running t) = refl

pub registered-map-wake :
    (ws : List Worker) (j : ℕ)
    → is_registered (get_elem? (map wake ws) j) ≡ is_registered (get_elem? ws j)
registered-map-wake [] j = refl
registered-map-wake (w ∷ ws) zero = registered-wake w
registered-map-wake (w ∷ ws) (suc j) = registered-map-wake ws j
