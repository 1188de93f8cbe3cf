-- ===== src/Storage/Elastic/Server.antt =====
-- A server that is a list of documents, the newest first, and meets the laws.
use smart_scanner.Common.{
  suc, ◌≤◌, ◌∙◌, str_eq_iff, ◌≡◌, refl, Bool, true, false, ◌&&◌, Option, none, some, List, [], ◌∷◌,
  some-injective, All, Outcome, String, sym, ap, inl, inr, Bool-cases, if◌then◌else◌, str_eq,
  str_eq_refl, ◌==◌, ==_iff, length, arith,
}
use mathlib.Core.Bool.{true≢false}
use mathlib.Core.Path.{subst}
use smart_scanner.Storage.Elastic.{
  Elastic, Document, Query, Search, Hit, Hits, Reply, Index, DocumentId, source, answered, parsed,
  refused, matches, blocks_index, transactions_index, logs_index, reorg_events_index, number_id,
  hash_id, log_id, event_id,
}
use smart_scanner.Storage.Elastic.Laws.{QueryLaws, DocumentLaws, SearchLaws, Found, HasHit, merge}

abbrev pub index_eq : Index → Index → Bool
index_eq (blocks_index a) (blocks_index b) = str_eq a b
index_eq (transactions_index a) (transactions_index b) = str_eq a b
index_eq (logs_index a) (logs_index b) = str_eq a b
index_eq reorg_events_index reorg_events_index = true
index_eq _ _ = false

abbrev pub id_eq : DocumentId → DocumentId → Bool
id_eq (number_id m) (number_id n) = m == n
id_eq (hash_id a) (hash_id b) = str_eq a b
id_eq (log_id a m) (log_id b n) = str_eq a b && m == n
id_eq (event_id a m) (event_id b n) = str_eq a b && m == n
id_eq _ _ = false

index_eq_refl : (ix : Index) → index_eq ix ix ≡ true
index_eq_refl (blocks_index a) = str_eq_refl a
index_eq_refl (transactions_index a) = str_eq_refl a
index_eq_refl (logs_index a) = str_eq_refl a
index_eq_refl reorg_events_index = refl

id_eq_refl : (i : DocumentId) → id_eq i i ≡ true
id_eq_refl (number_id m) = (==_iff m m).1 refl
id_eq_refl (hash_id a) = str_eq_refl a
id_eq_refl (log_id a m) = rw (str_eq_refl a) ((==_iff m m).1 refl)
id_eq_refl (event_id a m) = rw (str_eq_refl a) ((==_iff m m).1 refl)

abbrev pub Documents : Type 0
Documents = List (Index × DocumentId × Document)

abbrev pub find : Index → DocumentId → Documents → Option Document
find ix i [] = none
find ix i ((jx, j, d) ∷ s) =
    let rest = find ix i s in if index_eq ix jx && id_eq i j then some d else rest

abbrev pub delete : Index → Query → Documents → Documents
delete ix q [] = []
delete ix q ((jx, j, d) ∷ s) =
    let rest = delete ix q s in if index_eq ix jx && matches q d then rest else (jx, j, d) ∷ rest

-- The documents of an index that a query matches are changed.
abbrev pub change : Index → (Document → Bool) → (Document → Document) → Documents → Documents
change ix p f [] = []
change ix p f ((jx, j, d) ∷ s) = (jx, j, if index_eq ix jx && p d then f d else d) ∷ change ix p f s

abbrev pub change_at : Index → DocumentId → (Document → Document) → Documents → Documents
change_at ix i f [] = []
change_at ix i f ((jx, j, d) ∷ s) =
    (jx, j, if index_eq ix jx && id_eq i j then f d else d) ∷ change_at ix i f s

abbrev pub hit_if : Query → Option Document → List Hit → List Hit
hit_if q none rest = rest
hit_if q (some d) rest = if matches q d then source d ∷ rest else rest

-- The hits among the documents with the identifiers of a list.
abbrev pub hits_of : Index → Query → Documents → Documents → List Hit
hits_of ix q s [] = []
hits_of ix q s ((jx, j, d) ∷ l) = hit_if q (find ix j s) (hits_of ix q s l)

abbrev pub reply_of : Option Document → Reply (Outcome String (Option Document))
reply_of none = refused 404 "404 Not Found"
reply_of (some d) = parsed (some d)

abbrev pub list_server : Elastic
list_server = record {
  State = Documents;
  index = λ ix i d s. (answered tt, (ix, i, d) ∷ s);
  bulk = λ l s. (answered tt, s);
  get = λ ix i s. reply_of (find ix i s);
  search = λ ix q s. parsed (
      some (record {
        total = some (some (length (hits_of ix q.query s s)));
        hits = some (hits_of ix q.query s s);
      }));
  delete_by_query = λ ix q s. (answered tt, delete ix q s);
  update = λ ix i doc s. (answered tt, change_at ix i (merge doc) s);
  update_by_query = λ ix q f s. (answered tt, change ix (matches q) f s);
  cluster_health = λ s. answered tt;
}

pub reply_of-some : (o : Option Document) (d : Document) → reply_of o ≡ parsed (some d) → o ≡ some d
reply_of-some none d h = cc
reply_of-some (some e) d h = cc

both : (a b : Bool) → (a && b) ≡ true → a ≡ true
both true b h = refl
both false b h = absurd (true≢false (sym h))

pub find-delete :
    (ix : Index) (q : Query) (i : DocumentId) (d : Document) (s : Documents)
    → find ix i s ≡ some d
    → matches q d ≡ false
    → find ix i (delete ix q s) ≡ some d
find-delete ix q i d [] h kept = cc
find-delete ix q i d ((jx, j, e) ∷ s) h kept = ground (arith, find-delete ix q i d s)

pub find-change :
    (ix : Index) (p : Document → Bool) (f : Document → Document) (i : DocumentId) (d : Document)
    (s : Documents)
    → find ix i s ≡ some d
    → find ix i (change ix p f s) ≡ some (elim (p d) [ true ↦ f d | false ↦ d ])
find-change ix p f i d [] h = cc
find-change ix p f i d ((jx, j, e) ∷ s) h = ground (arith, find-change ix p f i d s)

pub find-change_at :
    (ix : Index) (f : Document → Document) (i : DocumentId) (d : Document) (s : Documents)
    → find ix i s ≡ some d
    → find ix i (change_at ix i f s) ≡ some (f d)
find-change_at ix f i d [] h = cc
find-change_at ix f i d ((jx, j, e) ∷ s) h = ground (arith, find-change_at ix f i d s)

hit_if-Found :
    (ix : Index) (q : Query) (i : DocumentId) (s : Documents) (o : Option Document) (l : List Hit)
    → find ix i s ≡ o
    → All (Found list_server ix q s) l
    → All (Found list_server ix q s) (hit_if q o l)
hit_if-Found ix q i s none l e all = all
hit_if-Found ix q i s (some d) l e all = elim (Bool-cases (matches q d)) [
  | inl matched ↦ rw matched ((i, rw e refl, matched), all)
  | inr missed ↦ rw missed all
]

hits_of-Found :
    (ix : Index) (q : Query) (s l : Documents) → All (Found list_server ix q s) (hits_of ix q s l)
hits_of-Found ix q s [] = tt
hits_of-Found ix q s ((jx, j, d) ∷ l) =
    hit_if-Found ix q j s (find ix j s) (hits_of ix q s l) refl (hits_of-Found ix q s l)

hits_match_lem :
    (ix : Index) (q : Search) (s : Documents) (hits : Hits) (l : List Hit)
    → list_server.search ix q s ≡ parsed (some hits)
    → hits.hits ≡ some l
    → All (Found list_server ix q.query s) l
hits_match_lem ix q s hits l e list =
    let same : some (hits_of ix q.query s s) ≡ some l = cc in
    subst (All (Found list_server ix q.query s)) (some-injective same)
      (hits_of-Found ix q.query s s)

pub list_server-query_laws : QueryLaws list_server
list_server-query_laws = record {
  unmatched_stays = λ ix q i d s h kept.
      ap reply_of (find-delete ix q i d s (reply_of-some (find ix i s) d h) kept);
  hits_match = hits_match_lem;
}

pub find_first :
    (ix : Index) (i : DocumentId) (d : Document) (s : Documents)
    → find ix i ((ix, i, d) ∷ s) ≡ some d
find_first ix i d s = rw (index_eq_refl ix, id_eq_refl i) refl

unfoldable pub list_server-document_laws : DocumentLaws list_server
list_server-document_laws = record {
  Searchable = λ ix i s. Unit;
  indexed = λ ix i d s h. ap reply_of (find_first ix i d s);
  updated = λ ix i doc d s h done.
      ap reply_of (find-change_at ix (merge doc) i d s (reply_of-some (find ix i s) d h));
  scripted = λ ix q f i d s h seen done.
      ap reply_of (find-change ix (matches q) f i d s (reply_of-some (find ix i s) d h));
}

id_eq_sound : (i j : DocumentId) → id_eq i j ≡ true → i ≡ j
id_eq_sound (number_id m) (number_id n) h = ap number_id ((==_iff m n).0 h)
id_eq_sound (hash_id a) (hash_id b) h = ap hash_id ((str_eq_iff a b).0 h)
id_eq_sound (log_id a m) (log_id b n) h = ground (arith, str_eq_iff a b, ==_iff m n)
id_eq_sound (event_id a m) (event_id b n) h = ground (arith, str_eq_iff a b, ==_iff m n)
id_eq_sound _ _ h = cc

hit_if-later :
    (q : Query) (o : Option Document) (d : Document) (l : List Hit)
    → HasHit d l
    → HasHit d (hit_if q o l)
hit_if-later q none d l has = has
hit_if-later q (some e) d l has = elim (Bool-cases (matches q e)) [
  | inl matched ↦ rw matched (inr has)
  | inr missed ↦ rw missed has
]

second : (a b : Bool) → (a && b) ≡ true → b ≡ true
second true b h = h
second false b h = absurd (true≢false (sym h))

pub hits_of-HasHit :
    (ix : Index) (q : Query) (i : DocumentId) (d : Document) (s : Documents)
    → find ix i s ≡ some d
    → matches q d ≡ true
    → (l : Documents) (e : Document) → find ix i l ≡ some e
    → HasHit d (hits_of ix q s l)
hits_of-HasHit ix q i d s stored matched [] e here = cc
hits_of-HasHit ix q i d s stored matched ((jx, j, x) ∷ l) e here =
    elim (Bool-cases (index_eq ix jx && id_eq i j)) [
      | inl same ↦
          let own : find ix j s ≡ some d =
            ap (λ k. find ix k s) (sym (id_eq_sound i j (second _ _ same))) ∙ stored in
          rw (own, matched) (inl refl)
      | inr other ↦
          hit_if-later q (find ix j s) d (hits_of ix q s l)
            (hits_of-HasHit ix q i d s stored matched l e (rw other at here))
    ]

length-hit_if :
    (q : Query) (o : Option Document) (l : List Hit) → length (hit_if q o l) ≤ suc (length l)
length-hit_if q none l = omega arith
length-hit_if q (some d) l = elim (Bool-cases (matches q d)) [
  | inl matched ↦ rw matched (omega arith)
  | inr missed ↦ rw missed (omega arith)
]

pub length-hits_of :
    (ix : Index) (q : Query) (s l : Documents) → length (hits_of ix q s l) ≤ length l
length-hits_of ix q s [] = omega arith
length-hits_of ix q s ((jx, j, d) ∷ l) =
    omega (arith, length-hit_if q (find ix j s) (hits_of ix q s l), length-hits_of ix q s l)

pub searched :
    (ix : Index) (q : Search) (s : Documents) (hits : Hits) (l : List Hit)
    → list_server.search ix q s ≡ parsed (some hits)
    → hits.hits ≡ some l
    → hits_of ix q.query s s ≡ l
searched ix q s hits l e list =
    let same : some (hits_of ix q.query s s) ≡ some l = cc in some-injective same

unfoldable pub list_server-search_laws : SearchLaws list_server
list_server-search_laws = record {
  Visible = λ ix i s. Unit;
  all_found = λ ix q s hits l size e list from sized few i d stored seen matched.
      subst (HasHit d) (searched ix q s hits l e list) (
        hits_of-HasHit ix q.query i d s (reply_of-some (find ix i s) d stored) matched s d
          (reply_of-some (find ix i s) d stored));
}
