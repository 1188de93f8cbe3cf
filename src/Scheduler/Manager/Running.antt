-- ===== src/Scheduler/Manager/Running.antt =====
-- Which scanners the manager of internal/scheduler/scheduler_manager.go has.
use smart_scanner.Common.{
  String, ◌≡◌, refl, sym, ap, ◌∙◌, inl, inr, Bool, true, false, Option, none, some, List, [], ◌∷◌,
  Outcome, ok, err, is_ok, if◌then◌else◌, str_eq, look_up, insert, remove, look_up-insert,
  look_up-remove, Option-cases, Bool-cases, Outcome-cases, str_eq_iff, ok-injective, arith,
}
use mathlib.Core.Bool.{true≢false}
use smart_scanner.Scheduler.Manager.{
  Scanners, ScannerMap, SchedulerError, no_scanners, build, build_all, initialize_scanners,
  add_scanner, remove_scanner,
}

abbrev pub has : String → List String → Bool
has c [] = false
has c (d ∷ ds) = let rest = has c ds in if str_eq c d then true else rest

if_same {ℓ} : {A : Type ℓ} (b : Bool) (x : A) → (if b then x else x) ≡ x
if_same true x = refl
if_same false x = refl

module _ (sc : Scanners) where
  open sc use {Scanner, World}

  abbrev pub built : String → Option Scanner
  built c = elim (build sc c) [ ok s ↦ some s | err e ↦ none ]

  -- The scanner that is built, else what there was.
  abbrev or_built : String → Option Scanner → Option Scanner
  or_built c old = elim (build sc c) [ ok s ↦ some s | err e ↦ old ]

  build_all-look_up :
      (chains : List String) (m : ScannerMap sc) (c : String)
      → look_up c (build_all sc chains m)
        ≡ (if has c chains then or_built c (look_up c m) else look_up c m)
  unfolding build_all
  build_all-look_up [] m c = refl
  build_all-look_up (d ∷ chains) m c = elim (Outcome-cases (build sc d)) [
    | inl (s, e) ↦
        let more = build_all-look_up chains (insert d s m) c in
        let found = look_up-insert c d s m in
        elim (Bool-cases (str_eq c d)) [
          | inl same ↦
              let here : build sc c ≡ ok s = ap (build sc) ((str_eq_iff c d).0 same) ∙ e in
              rw (e, same, more, found, same, or_built, here) (if_same (has c chains) (some s))
          | inr other ↦ rw (e, other, more, found, other) refl
        ]
    | inr (x, e) ↦
        let more = build_all-look_up chains m c in
        elim (Bool-cases (str_eq c d)) [
          | inl same ↦
              let here : build sc c ≡ err x = ap (build sc) ((str_eq_iff c d).0 same) ∙ e in
              rw (e, same, more, or_built, here) (if_same (has c chains) (look_up c m))
          | inr other ↦ rw (e, other, more) refl
        ]
  ]

  initialized :
      (m m' : ScannerMap sc)
      → (elim m as (λ _. Outcome SchedulerError (ScannerMap sc)) [
        | [] ↦ err no_scanners
        | s ∷ rest ↦ ok (s ∷ rest)
      ])
        ≡ ok m'
      → m ≡ m'
  initialized [] m' bad = absurd (true≢false (sym (ap is_ok bad)))
  initialized (s ∷ rest) m' done = ok-injective done

  -- Once the scanners are initialised, a chain has a scanner exactly if it is enabled and its scanner was
  -- built, and it has that one.
  pub initialize_scanners-look_up :
      (m : ScannerMap sc) (c : String)
      → initialize_scanners sc ≡ ok m
      → look_up c m ≡ (if has c sc.enabled_chains then built c else none)
  unfolding initialize_scanners
  initialize_scanners-look_up m c done =
      let all = build_all-look_up sc.enabled_chains [] c in
      let same : build_all sc sc.enabled_chains [] ≡ m =
        initialized (build_all sc sc.enabled_chains []) m done in
      ap (look_up c) (sym same) ∙ all

  add_scanner-ok :
      (c : String) (m : ScannerMap sc) (w : World)
      → (add_scanner sc c (m, w)).0 ≡ ok tt
      → (s : Scanner) × (look_up c m ≡ none) × ((add_scanner sc c (m, w)).1.0 ≡ insert c s m)
  unfolding add_scanner
  add_scanner-ok c m w = elim (Option-cases (look_up c m)) [
    | inr (old, e) ↦ rw (e, add_scanner) (λ bad. absurd (true≢false (sym (ap is_ok bad))))
    | inl free ↦ elim (Outcome-cases (build sc c)) [
      | inr (x, e) ↦ rw (free, add_scanner, e) (λ bad. absurd (true≢false (sym (ap is_ok bad))))
      | inl (s, e) ↦ elim (Outcome-cases (sc.start_scanner s w).0) [
        | inr (x, q) ↦
            rw (free, add_scanner, e, q) (λ bad. absurd (true≢false (sym (ap is_ok bad))))
        | inl (u, q) ↦ rw (free, add_scanner, e, q) (λ done. (s, refl, refl))
      ]
    ]
  ]

  remove_scanner-ok :
      (c : String) (m : ScannerMap sc) (w : World)
      → (remove_scanner sc c (m, w)).0 ≡ ok tt
      → (remove_scanner sc c (m, w)).1.0 ≡ remove c m
  unfolding remove_scanner
  remove_scanner-ok c m w = elim (Option-cases (look_up c m)) [
    | inl none_there ↦
        rw (none_there, remove_scanner) (λ bad. absurd (true≢false (sym (ap is_ok bad))))
    | inr (s, e) ↦ elim (Outcome-cases (sc.stop_scanner s w).0) [
      | inr (x, q) ↦ rw (e, remove_scanner, q) (λ bad. absurd (true≢false (sym (ap is_ok bad))))
      | inl (u, q) ↦ rw (e, remove_scanner, q) (λ done. refl)
    ]
  ]

  -- A scanner that was added and then removed leaves the scanners of all chains as they were.
  pub remove_scanner-add_scanner :
      (c d : String) (m : ScannerMap sc) (w w' : World)
      → (add_scanner sc c (m, w)).0 ≡ ok tt
      → let added = (add_scanner sc c (m, w)).1.0 in
        (remove_scanner sc c (added, w')).0 ≡ ok tt
        → look_up d (remove_scanner sc c (added, w')).1.0 ≡ look_up d m
  remove_scanner-add_scanner c d m w w' added removed =
      let (s, free, there) = add_scanner-ok c m w added in
      let gone = remove_scanner-ok c (add_scanner sc c (m, w)).1.0 w' removed in
      let left : look_up d (remove c (insert c s m)) ≡ look_up d m =
        ground (arith, look_up-remove d c (insert c s m), look_up-insert d c s m, str_eq_iff d c) in
      ap (look_up d) gone ∙ ap (λ x. look_up d (remove c x)) there ∙ left
