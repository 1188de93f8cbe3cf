-- ===== src/Storage/Elastic/Laws.antt =====
-- What the theorems about the storage in Elasticsearch rely on, as the server documents it.
use smart_scanner.Common.{ℕ, ◌<◌, ◌⊎◌, length, ◌≡◌, true, false, some, List, [], ◌∷◌, All, insert}
use smart_scanner.Storage.Elastic.{
  Elastic, Document, Query, Search, Hit, Hits, Index, DocumentId, no_map, no_source, source,
  answered, parsed, matches,
}

-- A hit is a document of the index that the query matches.
abbrev pub Found : (server : Elastic) → Index → Query → server.State → Hit → Type 0
Found server ix q s no_map = Unit
Found server ix q s no_source = Unit
Found server ix q s (source d) =
    (i : DocumentId) × (server.get ix i s ≡ parsed (some d)) × (matches q d ≡ true)

-- A document is among the hits.
abbrev pub HasHit : Document → List Hit → Type 0
HasHit d [] = ⊥
HasHit d (h ∷ l) = (h ≡ source d) ⊎ HasHit d l

-- A deletion leaves alone what its query does not match, and a search finds nothing else than
-- documents that its index has and that match its query.
pub record QueryLaws (server : Elastic) : Type 0 where
  pub unmatched_stays :
      (ix : Index) (q : Query) (i : DocumentId) (d : Document) (s : server.State)
      → server.get ix i s ≡ parsed (some d)
      → matches q d ≡ false
      → server.get ix i (server.delete_by_query ix q s).1 ≡ parsed (some d)
  pub hits_match :
      (ix : Index) (q : Search) (s : server.State) (hits : Hits) (l : List Hit)
      → server.search ix q s ≡ parsed (some hits)
      → hits.hits ≡ some l
      → All (Found server ix q.query s) l

-- A search whose hits are fewer than its size, from the first one on, has found every document that it
-- sees already and that its query matches.
pub record SearchLaws (server : Elastic) : Type 1 where
  pub Visible : Index → DocumentId → server.State → Type 0
  pub all_found :
      (ix : Index) (q : Search) (s : server.State) (hits : Hits) (l : List Hit) (size : ℕ)
      → server.search ix q s ≡ parsed (some hits)
      → hits.hits ≡ some l
      → q.from ≡ 0
      → q.size ≡ some size
      → length l < size
      → (i : DocumentId) (d : Document) → server.get ix i s ≡ parsed (some d)
      → Visible ix i s
      → matches q.query d ≡ true
      → HasHit d l

-- A partial document replaces the fields that it has.
abbrev pub merge : Document → Document → Document
merge [] d = d
merge ((key, v) ∷ doc) d = merge doc (insert key v d)

-- A document that was indexed or updated is read back. A script changes the documents that match its
-- query and that a search sees already, which takes the server up to a refresh.
pub record DocumentLaws (server : Elastic) : Type 1 where
  pub Searchable : Index → DocumentId → server.State → Type 0
  pub indexed :
      (ix : Index) (i : DocumentId) (d : Document) (s : server.State)
      → (server.index ix i d s).0 ≡ answered tt
      → server.get ix i (server.index ix i d s).1 ≡ parsed (some d)
  pub updated :
      (ix : Index) (i : DocumentId) (doc d : Document) (s : server.State)
      → server.get ix i s ≡ parsed (some d)
      → (server.update ix i doc s).0 ≡ answered tt
      → server.get ix i (server.update ix i doc s).1 ≡ parsed (some (merge doc d))
  pub scripted :
      (ix : Index) (q : Query) (script : Document → Document) (i : DocumentId) (d : Document)
      (s : server.State)
      → server.get ix i s ≡ parsed (some d)
      → Searchable ix i s
      → (server.update_by_query ix q script s).0 ≡ answered tt
      → server.get ix i (server.update_by_query ix q script s).1
        ≡ parsed (some (elim (matches q d) [ true ↦ script d | false ↦ d ]))
