-- ===== src/Config/AgentSet/Hash.antt =====
-- safa-core/src/config.rs: the boot hash of the agents' files.
use ama.Prelude.{ℕ, ◌≡◌, refl, String, List, [], ◌∷◌, arith, get, string_eq}
use ama.Errors.{Result, ok}
use ama.Config.AgentSet.{sort_by_path, agents_hash}
use ama.Manifest.Order.{Sorted, insert-Sorted, get-insert_sorted, Sorted-unique}

sort_by_path-Sorted : (m : List (String × Result String (List ℕ))) → Sorted (sort_by_path m)
unfolding sort_by_path
sort_by_path-Sorted [] = tt
sort_by_path-Sorted ((path, bytes) ∷ m) =
    insert-Sorted path bytes (sort_by_path m) (sort_by_path-Sorted m)

get-sort_by_path :
    (k : String) (m : List (String × Result String (List ℕ))) → get k (sort_by_path m) ≡ get k m
unfolding get sort_by_path
get-sort_by_path k [] = refl
get-sort_by_path k ((path, bytes) ∷ m) =
    ground (arith, get-insert_sorted path k bytes (sort_by_path m), get-sort_by_path k m)

sort_by_path_unique :
    (m n : List (String × Result String (List ℕ)))
    → ((k : String) → get k m ≡ get k n)
    → sort_by_path m ≡ sort_by_path n
sort_by_path_unique m n h =
    Sorted-unique (sort_by_path m) (sort_by_path n) (sort_by_path-Sorted m) (sort_by_path-Sorted n)
      (λ k. ground (arith, h k, get-sort_by_path k m, get-sort_by_path k n))

-- The hash, or the error that is reported, does not depend on the order in which the directory lists
-- its files.
agents_hash-stable :
    (sha256_hex : List ℕ → String) (m n : List (String × Result String (List ℕ)))
    → ((k : String) → get k m ≡ get k n)
    → agents_hash sha256_hex (ok m) ≡ agents_hash sha256_hex (ok n)
unfolding agents_hash
agents_hash-stable sha256_hex m n h = rw (sort_by_path_unique m n h) refl
