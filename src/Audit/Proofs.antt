-- ===== src/Audit/Proofs.antt =====
-- safa-core/src/audit.rs: the store of proofs is bounded, and the newest record can be read back.
use ama.Prelude.{
  ◌≡◌, ◌≤◌, ◌<◌, some, arith, length, IsMap, string_eq, get-insert_self, insert-IsMap, remove-IsMap,
  length-remove, length-insert-le, Option-cases, inl, inr,
}
use ama.Audit.{ProofRecord, ProofStore, Order, evict, insert_proof, get_proof}

-- Request ids are distinct and there is room for at most `max_entries` records.
pub record IsValid (s : ProofStore) : Type 0 where
  pub map : IsMap s.records
  pub bounded : length s.records ≤ s.max_entries
  pub some_room : 0 < s.max_entries

evict_room :
    (o : Order) (s : ProofStore)
    → IsValid s
    → (length (evict o s).records < s.max_entries)
      × IsMap (evict o s).records
      × ((evict o s).max_entries ≡ s.max_entries)
unfolding evict
evict_room o s v = elim (Option-cases (o.first_key s.records)) [
  | inl e ↦ ground (arith, o.first_key_none s.records e)
  | inr (k, e) ↦
      let m = o.first_key_mem s.records k e in
      ground (arith, length-remove k m.0 s.records m.1, remove-IsMap k s.records v.map)
]

-- After an insertion the store is still within its limit, whatever entry the map's order makes it evict,
-- and the new record is found under its request id.
pub insert_proof-IsValid :
    (o : Order) (r : ProofRecord) (s : ProofStore)
    → IsValid s
    → IsValid (insert_proof o r s) × (get_proof r.request_id (insert_proof o r s) ≡ some r)
unfolding insert_proof get_proof
insert_proof-IsValid o r s v =
    let e = evict_room o s v in
    (
      record {
        map = insert-IsMap r.request_id r (evict o s).records e.1;
        bounded = omega (arith, e.0, e.2, length-insert-le r.request_id r (evict o s).records);
        some_room = omega (arith, e.2);
      },
      get-insert_self r.request_id r (evict o s).records,
    )
