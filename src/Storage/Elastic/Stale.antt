-- ===== src/Storage/Elastic/Stale.antt =====
-- The document of a block has the keys "number" and "hash", and the queries on blocks ask for
-- "block_number" and "block_hash": no block is found by its hash, and none is deleted.
use smart_scanner.Common.{
  ℕ, String, ◌≡◌, refl, ◌∙◌, false, none, some, List, [], ◌∷◌, Outcome, ok, err, is_ok, ◌⊎◌, sym,
  ap, inl, inr, Option-cases, Outcome-cases, Bool-cases, ◌==◌, ◌>>=◌,
}
use mathlib.Core.Bool.{true≢false}
use smart_scanner.Types.{Block}
use smart_scanner.Storage.Elastic.{
  Elastic, Document, Search, Hit, Hits, Reply, Index, DocumentId, no_map, no_source, source, clause,
  term, unreachable, refused, answered, parsed, blocks_index, number_id, matches, settled,
}
use smart_scanner.Storage.Elastic.Laws.{QueryLaws}
use smart_scanner.Storage.Elastic.Documents.{block_document}
use smart_scanner.Storage.Elastic.Writes.{delete_blocks, block_range}
use smart_scanner.Storage.Elastic.Reads.{get_block, get_block_by_hash, first_hit, first_of, listed}

block_range-misses :
    (b : Block) (from to : ℕ)
    → matches (block_range "block_number" from to) (block_document b) ≡ false
unfolding block_document
block_range-misses b from to = refl

hash-misses :
    (b : Block) (h : String) → matches (clause (term "block_hash" h)) (block_document b) ≡ false
unfolding block_document
hash-misses b h = refl

failed_bind :
    {E A B : Type 0} (m : Outcome E A) (k : A → Outcome E B)
    → is_ok m ≡ false
    → is_ok (m >>= k) ≡ false
failed_bind (ok a) k bad = absurd (true≢false bad)
failed_bind (err e) k bad = refl

-- A search that was answered, or one that fails with any text.
Reply-cases :
    {A : Type 0} (r : Reply A)
    → ((unsent : String) → is_ok (settled unsent r) ≡ false) ⊎ ((a : A) × (r ≡ answered a))
Reply-cases (unreachable e) = inl (λ unsent. refl)
Reply-cases (refused code status) = inl (λ unsent. refl)
Reply-cases (answered a) = inr (a, refl)

first_hit-fails :
    (missing : String) (body : Hits)
    → is_ok (first_of (listed body.hits)) ≡ false
    → is_ok (first_hit missing (some body)) ≡ false
unfolding first_hit
first_hit-fails missing body fails = elim (Option-cases body.total) [
  | inl e ↦ rw (e, ◌>>=◌) refl
  | inr (total, e) ↦
      rw (e, ◌>>=◌)
        (elim (Option-cases total) [
          | inl none_there ↦ rw (none_there, ◌>>=◌) refl
          | inr (n, some_there) ↦ elim (Bool-cases (n == 0)) [
            | inl zero_hits ↦ rw (some_there, zero_hits, ◌>>=◌) refl
            | inr more ↦ rw (some_there, more, ◌>>=◌) fails
          ]
        ])
]

module _ (server : Elastic) (laws : QueryLaws server) where
  -- Where the server meets the laws of queries, GetBlock answers for a stored document of a block
  -- after DeleteBlocks as before, whatever the range and whether or not the deletion succeeded,
  -- also where the block's number lies in the range.
  pub get_block-delete_blocks_stale :
      (c : String) (n from to : ℕ) (b : Block) (s : server.State)
      → server.get (blocks_index c) (number_id n) s ≡ parsed (some (block_document b))
      → get_block server c n (delete_blocks server c from to s).1 ≡ get_block server c n s
  unfolding delete_blocks get_block
  get_block-delete_blocks_stale c n from to b s stored =
      let stays =
        laws.unmatched_stays (blocks_index c) (block_range "block_number" from to) (number_id n)
          (block_document b) s stored (block_range-misses b from to) in
      rw (stays, stored) refl

  -- Every document of an index is a block's.
  abbrev pub HasBlocks : Index → server.State → Type 0
  HasBlocks ix s =
      (i : DocumentId) (d : Document)
      → server.get ix i s ≡ parsed (some d)
      → (b : Block) × (d ≡ block_document b)

  no_source_found :
      (c h : String) (q : Search) (hits : Hits) (s : server.State)
      → q.query ≡ clause (term "block_hash" h)
      → HasBlocks (blocks_index c) s
      → server.search (blocks_index c) q s ≡ parsed (some hits)
      → (l : List Hit) → hits.hits ≡ some l
      → is_ok (first_of l) ≡ false
  no_source_found c h q hits s asked blocks found [] e = refl
  no_source_found c h q hits s asked blocks found (no_map ∷ hs) e = refl
  no_source_found c h q hits s asked blocks found (no_source ∷ hs) e = refl
  no_source_found c h q hits s asked blocks found (source d ∷ hs) e =
      let (i, stored, matched) =
        (laws.hits_match (blocks_index c) q s hits (source d ∷ hs) found e).0 in
      let (b, same) = blocks i d stored in
      let missed : matches q.query d ≡ false = rw (asked, same) (hash-misses b h) in
      absurd (true≢false (sym matched ∙ missed))

  listed_fails :
      (c h : String) (q : Search) (hits : Hits) (s : server.State)
      → q.query ≡ clause (term "block_hash" h)
      → HasBlocks (blocks_index c) s
      → server.search (blocks_index c) q s ≡ parsed (some hits)
      → is_ok (first_of (listed hits.hits)) ≡ false
  listed_fails c h q hits s asked blocks found = elim (Option-cases hits.hits) [
    | inl e ↦ rw e refl
    | inr (l, e) ↦ rw e (no_source_found c h q hits s asked blocks found l e)
  ]

  -- Where the server meets the laws of queries, and the blocks of a chain are all that its index
  -- holds, GetBlockByHash answers with an error, whatever hash is asked for, also that of a stored
  -- block.
  pub get_block_by_hash-fails :
      (c h : String) (s : server.State)
      → HasBlocks (blocks_index c) s
      → is_ok (get_block_by_hash server c h s) ≡ false
  unfolding get_block_by_hash
  get_block_by_hash-fails c h s blocks =
      let q : Search = record {
        query = clause (term "block_hash" h);
        sort = [];
        from = 0;
        size = none;
      } in
      elim (Reply-cases (server.search (blocks_index c) q s)) [
        | inl e ↦ failed_bind _ _ (e "failed to search block: ")
        | inr (answer, e) ↦ elim (Outcome-cases answer) [
          | inl (body, is_json) ↦ elim (Option-cases body) [
            | inl nothing ↦ rw (e, is_json, nothing) (unfold first_hit in refl)
            | inr (hits, some_hits) ↦
                let found : server.search (blocks_index c) q s ≡ parsed (some hits) =
                  e ∙ ap answered (is_json ∙ ap ok some_hits) in
                rw (found, ◌>>=◌)
                  (failed_bind _ _ (
                    first_hit-fails "block not found" hits
                      (listed_fails c h q hits s refl blocks found)))
          ]
          | inr (error, no_json) ↦ rw (e, no_json, ◌>>=◌) refl
        ]
      ]
