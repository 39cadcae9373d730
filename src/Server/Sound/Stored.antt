-- ===== src/Server/Sound/Stored.antt =====
-- safa-core/src/idempotency.rs and audit.rs: the calls of the cache and of the proof store keep their limits.
use ama.Prelude.{◌≡◌, ◌∙◌, String, arith, get, nat_eq, Uuid, Option-cases}
use ama.Idempotency.{
  Clock, IdempotencyCache, purge_expired, enter, check_or_insert, complete, remove_key,
}
use ama.Idempotency.Size
use ama.Audit.{ProofRecord, ProofStore, Order, evict, insert_proof}
use ama.Audit.Proofs
use ama.Server.Sound.{Stores}

complete-max :
    (key : Uuid) (text : String) (c : IdempotencyCache)
    → (complete key text c).max_entries ≡ c.max_entries
unfolding complete
complete-max key text c = ground (arith, Option-cases (get key c.entries))

check_or_insert-max :
    (t : Clock) (key : Uuid) (c : IdempotencyCache)
    → (check_or_insert t key c).0.max_entries ≡ c.max_entries
unfolding check_or_insert enter purge_expired
check_or_insert-max t key c =
    ground (arith, Option-cases (get key (purge_expired t.purged_at c).entries))

insert_proof-max :
    (o : Order) (r : ProofRecord) (p : ProofStore)
    → (insert_proof o r p).max_entries ≡ p.max_entries
unfolding insert_proof evict
insert_proof-max o r p = ground (arith, Option-cases (o.first_key p.records))

module _ (c : IdempotencyCache) (p : ProofStore) (v : Stores c p) where
  pub complete-Stores : (key : Uuid) (text : String) → Stores (complete key text c) p
  complete-Stores key text = record {
    cache_valid = Size.complete-IsValid key text c v.cache_valid;
    cache_limit = complete-max key text c ∙ v.cache_limit;
    proofs_valid = v.proofs_valid;
    proofs_limit = v.proofs_limit;
  }

  pub remove-Stores : (key : Uuid) → Stores (remove_key key c) p
  unfolding remove_key
  remove-Stores key = record {
    cache_valid = Size.remove-IsValid key c v.cache_valid;
    cache_limit = v.cache_limit;
    proofs_valid = v.proofs_valid;
    proofs_limit = v.proofs_limit;
  }

  pub check_or_insert-Stores : (t : Clock) (key : Uuid) → Stores (check_or_insert t key c).0 p
  check_or_insert-Stores t key = record {
    cache_valid = Size.check_or_insert-IsValid t key c v.cache_valid;
    cache_limit = check_or_insert-max t key c ∙ v.cache_limit;
    proofs_valid = v.proofs_valid;
    proofs_limit = v.proofs_limit;
  }

  pub insert_proof-Stores : (o : Order) (r : ProofRecord) → Stores c (insert_proof o r p)
  insert_proof-Stores o r = record {
    cache_valid = v.cache_valid;
    cache_limit = v.cache_limit;
    proofs_valid = (Proofs.insert_proof-IsValid o r p v.proofs_valid).0;
    proofs_limit = insert_proof-max o r p ∙ v.proofs_limit;
  }
