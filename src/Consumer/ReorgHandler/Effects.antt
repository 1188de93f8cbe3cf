-- ===== src/Consumer/ReorgHandler/Effects.antt =====
-- What HandleReorg of internal/consumer/reorg_handler.go brings about in a storage, whatever its calls
-- do there, and which events are being processed after it.
use smart_scanner.Common.{
  ℕ, String, ◌≡◌, ◌⊎◌, inl, inr, refl, sym, ap, ◌∙◌, true, false, List, [], ◌∷◌, ok, err, is_ok,
  Outcome-cases, Bool-cases,
}
use mathlib.Core.Bool.{true≢false}
use mathlib.Core.Path.{subst}
use smart_scanner.Common.Actions.{Action, ◌>>◌, writing, seq-ok, writing-ok, writing-state}
use smart_scanner.Types.{Transaction, ReorgEvent, reverted}
use smart_scanner.Storage.{Storage}
use smart_scanner.Consumer.StateMachine.{update_failed, force_set_state}
use smart_scanner.Consumer.ReorgHandler.{
  already_processed, key_eq, ReorgError, mark_failed, delete_blocks_failed, delete_logs_failed,
  save_failed, EventKey, is_processing, delete_key, block_range, validate_reorg_event,
  revert_transactions, revert_blocks, mark_transactions_as_reverted, cleanup_reorg_data,
  mark_reorg_event_as_processed, reorg_steps, handle_reorg,
}

-- Two properties of the storage's states: the first is what marking the event's blocks leads to, the
-- second what deleting them leads to, and the other calls of the handler keep them.
pub record Effects (st : Storage) (event : ReorgEvent) : Type 1 where
  pub Marked : st.State → Type 0
  pub Deleted : st.State → Type 0
  pub marks :
      (s : st.State)
      → let m =
          st.mark_transactions_as_reverted event.chain_id event.new_block_number
            event.old_block_number s in
        m.0 ≡ ok tt → Marked m.1
  pub forced :
      (h : String) (s : st.State)
      → Marked s
      → Marked (st.update_transaction_status event.chain_id h reverted s).1
  pub deletes :
      (s : st.State)
      → let m = st.delete_blocks event.chain_id event.new_block_number event.old_block_number s in
        m.0 ≡ ok tt → Deleted m.1
  pub deletes_Marked :
      (s : st.State)
      → Marked s
      → Marked (st.delete_blocks event.chain_id event.new_block_number event.old_block_number s).1
  pub cleans :
      (s : st.State)
      → Marked s × Deleted s
      → let s' =
          (st.delete_logs event.chain_id event.new_block_number event.old_block_number s).1 in
        Marked s' × Deleted s'
  pub saves :
      (e : ReorgEvent) (s : st.State)
      → Marked s × Deleted s
      → let s' = (st.save_reorg_event e s).1 in Marked s' × Deleted s'

module _ (st : Storage) (event : ReorgEvent) (effects : Effects st event) where
  open effects use {Marked, Deleted}

  abbrev pub c : String
  c = event.chain_id

  abbrev pub from : ℕ
  from = event.new_block_number

  abbrev pub to : ℕ
  to = event.old_block_number

  abbrev pub Both : st.State → Type 0
  Both s = Marked s × Deleted s

  force_set_state-Marked :
      (h : String) (s : st.State) → Marked s → Marked (force_set_state st c h reverted s).1
  unfolding force_set_state
  force_set_state-Marked h s marked =
      let update = st.update_transaction_status c h reverted in
      subst Marked (sym (writing-state update_failed update s)) (effects.forced h s marked)

  revert_transactions-Marked :
      (txs : List Transaction) (s : st.State) → Marked s → Marked (revert_transactions st c txs s)
  unfolding revert_transactions
  revert_transactions-Marked [] s marked = marked
  revert_transactions-Marked (tx ∷ txs) s marked =
      revert_transactions-Marked txs (force_set_state st c tx.hash reverted s).1
        (force_set_state-Marked tx.hash s marked)

  revert_blocks-Marked : (ns : List ℕ) (s : st.State) → Marked s → Marked (revert_blocks st c ns s)
  unfolding revert_blocks
  revert_blocks-Marked [] s marked = marked
  revert_blocks-Marked (n ∷ ns) s marked =
      elim (Outcome-cases (st.get_transactions_by_block c n s)) [
        | inl (txs, e) ↦ rw e (
            revert_blocks-Marked ns (revert_transactions st c txs s)
              (revert_transactions-Marked txs s marked))
        | inr (x, e) ↦ rw e (revert_blocks-Marked ns s marked)
      ]

  mark_transactions_as_reverted-Marked :
      (s : st.State)
      → (mark_transactions_as_reverted st event s).0 ≡ ok tt
      → Marked (mark_transactions_as_reverted st event s).1
  unfolding mark_transactions_as_reverted
  mark_transactions_as_reverted-Marked s done =
      let mark = st.mark_transactions_as_reverted c from to in
      let loop : Action st.State ReorgError (Unit {0}) =
        λ s. (ok tt, revert_blocks st c (block_range from to) s) in
      let both = seq-ok (writing mark_failed mark) loop s tt done in
      let wrote = writing-ok mark_failed mark s both.0 in
      subst Marked (ap (revert_blocks st c (block_range from to)) (sym wrote.1) ∙ sym both.2)
        (revert_blocks-Marked (block_range from to) (mark s).1 (effects.marks s wrote.0))

  cleanup_reorg_data-Both :
      (s : st.State)
      → (cleanup_reorg_data st event s).0 ≡ ok tt
      → Marked s
      → Both (cleanup_reorg_data st event s).1
  unfolding cleanup_reorg_data
  cleanup_reorg_data-Both s done marked =
      let delete = st.delete_blocks c from to in
      let clean = st.delete_logs c from to in
      let both =
        seq-ok (writing delete_blocks_failed delete) (writing delete_logs_failed clean) s tt done in
      let wrote = writing-ok delete_blocks_failed delete s both.0 in
      let s1 = (delete s).1 in
      let last =
        both.2
        ∙ ap (λ x. (writing delete_logs_failed clean x).1) wrote.1
        ∙ writing-state delete_logs_failed clean s1 in
      subst Both (sym last)
        (effects.cleans s1 (effects.deletes_Marked s marked, effects.deletes s wrote.0))

  mark_reorg_event_as_processed-Both :
      (s : st.State) → Both s → Both (mark_reorg_event_as_processed st event s).1
  unfolding mark_reorg_event_as_processed
  mark_reorg_event_as_processed-Both s both =
      let e = record event { processed = true } in
      subst Both (sym (writing-state save_failed (st.save_reorg_event e) s))
        (effects.saves e s both)

  reorg_steps-Both :
      (s : st.State) → (reorg_steps st event s).0 ≡ ok tt → Both (reorg_steps st event s).1
  unfolding reorg_steps
  reorg_steps-Both s done =
      let validate : Action st.State ReorgError (Unit {0}) =
        λ s. (validate_reorg_event st event s, s) in
      let mark = mark_transactions_as_reverted st event in
      let clean = cleanup_reorg_data st event in
      let save = mark_reorg_event_as_processed st event in
      let all = seq-ok (validate >> mark >> clean) save s tt done in
      let three = seq-ok (validate >> mark) clean s tt all.0 in
      let two = seq-ok validate mark s tt three.0 in
      let marked : Marked ((validate >> mark) s).1 =
        subst Marked (sym two.2) (mark_transactions_as_reverted-Marked s two.1) in
      let cleaned = cleanup_reorg_data-Both ((validate >> mark) s).1 three.1 marked in
      subst Both (sym all.2) (
        mark_reorg_event_as_processed-Both ((validate >> mark >> clean) s).1
          (subst Both (sym three.2) cleaned))

  pub handle_reorg-Both :
      (processing : List EventKey) (s : st.State)
      → (handle_reorg st event (processing, s)).0 ≡ ok tt
      → Both (handle_reorg st event (processing, s)).1.1
  unfolding handle_reorg
  handle_reorg-Both processing s =
      let k : EventKey = (c, to, from) in
      elim (Bool-cases (is_processing k processing)) [
        | inl busy ↦ rw (busy, handle_reorg) (λ bad. absurd (true≢false (sym (ap is_ok bad))))
        | inr free ↦ rw (free, handle_reorg) (reorg_steps-Both s)
      ]

is_processing-delete_key :
    (k : EventKey) (xs : List EventKey) → is_processing k (delete_key k xs) ≡ false
unfolding is_processing delete_key
is_processing-delete_key k [] = refl
is_processing-delete_key k (x ∷ xs) = elim (Bool-cases (key_eq k x)) [
  | inl e ↦ rw e (is_processing-delete_key k xs)
  | inr e ↦ rw e (rw e (is_processing-delete_key k xs))
]

-- An event that is being processed is refused and nothing changes; after any other call, failed or
-- not, the event is not being processed.
pub handle_reorg-releases :
    (st : Storage) (event : ReorgEvent) (processing : List EventKey) (s : st.State)
    → let k : EventKey = (event.chain_id, event.old_block_number, event.new_block_number) in
      let r = handle_reorg st event (processing, s) in
      ((is_processing k processing ≡ true) × (r ≡ (err already_processed, (processing, s))))
      ⊎ (is_processing k r.1.0 ≡ false)
unfolding handle_reorg
handle_reorg-releases st event processing s =
    let k : EventKey = (event.chain_id, event.old_block_number, event.new_block_number) in
    elim (Bool-cases (is_processing k processing)) [
      | inl busy ↦ inl (busy, rw (busy, handle_reorg) refl)
      | inr free ↦ inr (rw (free, handle_reorg) (is_processing-delete_key k (k ∷ processing)))
    ]
