-- ===== src/Storage/Elastic/Filtered.antt =====
-- What GetLogs answers with, of which its filter leaves nothing out.
use smart_scanner.Common.{
  ℕ, ◌<◌, String, ◌≡◌, refl, ◌∙◌, ◌⊎◌, inl, inr, Option, none, some, List, [], ◌∷◌, ok, is_ok,
  length, sym, ap, Outcome-cases, ok-injective, bind-ok, wrap-ok, ◌>>=◌,
}
use mathlib.Core.Bool.{true≢false}
use mathlib.Core.Path.{subst}
use smart_scanner.Types.{Log, LogFilter}
use smart_scanner.Storage.Elastic.{
  Elastic, Search, Hit, Hits, DocumentId, settled, no_map, no_source, source, must, asc, answered,
  parsed, logs_index,
}
use smart_scanner.Storage.Elastic.Saved.{settled-answered}
use smart_scanner.Storage.Elastic.Laws.{SearchLaws, HasHit}
use smart_scanner.Storage.Elastic.Documents.{
  log_document, read_log, read_log-log_document, ExactLog,
}
use smart_scanner.Storage.Elastic.Reads.{get_logs, parse, all_hits, present, read_hits, read_hit}

-- A log is in a list.
abbrev pub HasLog : Log → List Log → Type 0
HasLog log [] = ⊥
HasLog log (l ∷ logs) = (l ≡ log) ⊎ HasLog log logs

present-some :
    {A : Type 0} (absent : String) (o : Option A) (a : A) → present absent o ≡ ok a → o ≡ some a
present-some absent none a bad = absurd (true≢false (sym (ap is_ok bad)))
present-some absent (some b) a h = ap some (ok-injective h)

first_HasLog :
    (log : Log) (rest : List Log) (h : Hit)
    → ExactLog log
    → h ≡ source (log_document log)
    → HasLog log (read_hit read_log h rest)
first_HasLog log rest h exact same =
    rw (same, read_hit) (rw (read_log-log_document log exact) (inl refl))

skipped_HasLog :
    (log : Log) (rest : List Log) (h : Hit)
    → HasLog log rest
    → HasLog log (read_hit read_log h rest)
skipped_HasLog log rest no_map has = has
skipped_HasLog log rest no_source has = has
skipped_HasLog log rest (source d) has = elim (Outcome-cases (read_log d)) [
  | inl (l, e) ↦ rw (e, read_hit) (inr has)
  | inr (x, e) ↦ rw (e, read_hit) has
]

read_hits-HasLog :
    (log : Log) (l : List Hit)
    → ExactLog log
    → HasHit (log_document log) l
    → HasLog log (read_hits read_log l)
read_hits-HasLog log [] exact has = absurd has
read_hits-HasLog log (h ∷ l) exact (inl same) = first_HasLog log (read_hits read_log l) h exact same
read_hits-HasLog log (h ∷ l) exact (inr has) =
    skipped_HasLog log (read_hits read_log l) h (read_hits-HasLog log l exact has)

module _ (server : Elastic) (laws : SearchLaws server) where
  -- No search of a chain's logs answers with as many hits as a limit.
  abbrev pub FewHits : String → ℕ → server.State → Type 0
  FewHits c limit s =
      (q : Search) (hits : Hits) (l : List Hit)
      → server.search (logs_index c) q s ≡ parsed (some hits)
      → hits.hits ≡ some l
      → length l < limit

  -- Where the server meets the laws of searches, GetLogs with offset 0 on an index of which no
  -- search has as many hits as the limit answers with every stored log that searches see and whose
  -- numbers are at most 2^53, whatever block, address, transaction or topics the filter asks for.
  pub get_logs-unfiltered :
      (filter : LogFilter) (c : String) (s : server.State) (found : List Log)
      → filter.offset ≡ 0
      → get_logs server c filter s ≡ ok found
      → FewHits c filter.limit s
      → (log : Log) (i : DocumentId) → ExactLog log
      → server.get (logs_index c) i s ≡ parsed (some (log_document log))
      → laws.Visible (logs_index c) i s
      → HasLog log found
  unfolding get_logs
  get_logs-unfiltered filter c s found start done few log i exact stored seen =
      let q : Search = record {
        query = must [];
        sort = asc "block_number" ∷ asc "log_index" ∷ [];
        from = filter.offset;
        size = some filter.limit;
      } in
      let (answer, sent, unread) =
        bind-ok (settled "failed to search logs: " (server.search (logs_index c) q s))
          (λ answer. parse answer >>= all_hits read_log) found done in
      let (body, is_json, rest) = bind-ok (parse answer) (all_hits read_log) found unread in
      let (hits, some_hits, rest') = bind-ok (present "invalid hits format" body) _ found rest in
      let (l, some_list, last) =
        bind-ok (present "invalid hits list format" hits.hits) _ found rest' in
      let replied =
        settled-answered "failed to search logs: " _ answer sent
        ∙ ap answered
            (wrap-ok _ answer body is_json ∙ ap ok (present-some _ body hits some_hits)) in
      let list = present-some _ hits.hits l some_list in
      let has =
        laws.all_found (logs_index c) q s hits l filter.limit replied list start refl
          (few q hits l replied list) i (log_document log) stored seen refl in
      subst (HasLog log) (ok-injective last) (read_hits-HasLog log l exact has)
