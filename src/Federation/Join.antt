-- ===== src/Federation/Join.antt =====
-- What the results of noema/federation/router.py hold of the sub-tasks.
use Prim.Native.String.{String}
use noema.Prelude.{
  ℕ, suc, ◌+◌, ◌≤◌, ◌≡◌, refl, sym, ap, ◌∙◌, inl, inr, Bool, true, false, List, [], ◌∷◌, arith,
  if◌then◌else◌, Bool-cases, length, Result, ok,
}
use noema.Federation.{Status, DelegationResult, Config, Router, Escape}
use noema.Federation.Delegation.{
  Summary, delegate, delegate_each, count, summarise, is_delegated, is_local, is_failed,
  subtasks_or, label, execute,
}
use noema.Federation.Settling.{is_settled, noted, noted-more, Ends, Settles, delegate-Settles}

-- Each result stands for the sub-task at its place, and is settled.
AllSettled : List String → List DelegationResult → Type 0
AllSettled [] [] = Unit
AllSettled [] (x ∷ xs) = ⊥
AllSettled (d ∷ ds) [] = ⊥
AllSettled (d ∷ ds) (x ∷ xs) = (x.description ≡ d) × (is_settled x.status ≡ true) × AllSettled ds xs

module _ {W : Type 0} (config : Config W)
    (readable : (response : String) → config.is_readable response ≡ true)
    (expired : (w : W) → config.is_expired w ≡ true) (ends : Ends config.local_executor) where
  -- The results of the sub-tasks, in their order.
  JoinsEach : List String → Router W → Router W × Result Escape (List DelegationResult) → Type 0
  JoinsEach ds start ended =
      (xs : List DelegationResult) × (ended.1 ≡ ok xs)
      × AllSettled ds xs
      × (length ended.0.ledger
          ≡ noted config.has_ledger config.max_entries (length start.ledger) (length ds))

  noted-none :
      (r : Router W)
      → length r.ledger ≤ config.max_entries
      → length r.ledger ≡ noted config.has_ledger config.max_entries (length r.ledger) 0
  noted-none r h = elim (Bool-cases config.has_ledger) [
    | inl y ↦ rw (y) (omega (arith, h))
    | inr n ↦ rw (n) refl
  ]

  noted-fits :
      (has_ledger : Bool) (n m : ℕ)
      → n ≤ config.max_entries
      → m ≡ noted has_ledger config.max_entries n 1
      → m ≤ config.max_entries
  noted-fits true n m h e = omega (arith, h, e)
  noted-fits false n m h e = omega (arith, h, e)

  delegate_each-JoinsEach :
      (name : ℕ → String) (i : ℕ) (subtasks : List String) (r : Router W)
      → length r.ledger ≤ config.max_entries
      → JoinsEach subtasks r (delegate_each config name i subtasks r)
  unfolding delegate_each AllSettled Settles JoinsEach
  delegate_each-JoinsEach name i [] r fits = ([], refl, tt, noted-none r fits)
  delegate_each-JoinsEach name i (d ∷ ds) r fits =
      let (x, returned, named, same, settled, one) =
        delegate-Settles config readable expired ends (name i) d r in
      let r' = (delegate config (name i) d r).0 in
      let (xs, joined, rest, more) =
        delegate_each-JoinsEach name (i + 1) ds r'
          (noted-fits config.has_ledger (length r.ledger) (length r'.ledger) fits one) in
      (
        x ∷ xs,
        rw (returned, joined) refl,
        (same, settled, rest),
        more
            ∙ noted-more config.has_ledger config.max_entries (length r.ledger) (length r'.ledger)
                (length ds) one,
      )

counted_once :
    (s : Status) (a b c n : ℕ)
    → is_settled s ≡ true
    → a + b + c ≡ n
    → (if is_delegated s then suc a else a)
        + (if is_local s then suc b else b)
        + (if is_failed s then suc c else c)
      ≡ suc n
counted_once Status.pending a b c n h e = ground arith
counted_once Status.delegated a b c n h e = omega (arith, e)
counted_once Status.local a b c n h e = omega (arith, e)
counted_once Status.failed a b c n h e = omega (arith, e)

count-AllSettled :
    (ds : List String) (rs : List DelegationResult)
    → AllSettled ds rs
    → count is_delegated rs + count is_local rs + count is_failed rs ≡ length ds
unfolding count AllSettled
count-AllSettled [] [] s = omega arith
count-AllSettled [] (x ∷ xs) s = absurd s
count-AllSettled (d ∷ ds) [] s = absurd s
count-AllSettled (d ∷ ds) (x ∷ xs) (same, settled, rest) =
    counted_once x.status (count is_delegated xs) (count is_local xs) (count is_failed xs)
      (length ds) settled (count-AllSettled ds xs rest)

length-AllSettled :
    (ds : List String) (rs : List DelegationResult) → AllSettled ds rs → length rs ≡ length ds
unfolding AllSettled
length-AllSettled [] [] s = refl
length-AllSettled [] (x ∷ xs) s = absurd s
length-AllSettled (d ∷ ds) [] s = absurd s
length-AllSettled (d ∷ ds) (x ∷ xs) (same, settled, rest) = ap suc (length-AllSettled ds xs rest)

-- A summary whose results stand at the places of these sub-tasks, each settled, with counts that add up.
pub IsJoin : List String → Summary → Type 0
IsJoin ds summary =
    AllSettled ds summary.subtasks
    × (summary.total ≡ length ds)
    × (summary.delegated + summary.local + summary.failed ≡ summary.total)

-- If the numbers of every response can be read, the local executor is not cancelled, and every cancellation
-- of a peer's call is the timeout's, then however the peers, their breakers and the local executor fail:
-- `execute` returns one result for each sub-task, at its place, delegated, local or failed; the three
-- counts add up to the total, which is the number of sub-tasks (the title alone if there are none); and
-- the ledger, if there is one, grows by one entry for each, up to the most that it keeps.
pub execute-IsJoin :
    {W : Type 0} (config : Config W)
    → ((response : String) → config.is_readable response ≡ true)
    → ((w : W) → config.is_expired w ≡ true)
    → Ends config.local_executor
    → (show : ℕ → String) (title : String) (subtasks : List String) (task_id : String)
      (r : Router W)
    → length r.ledger ≤ config.max_entries
    → (summary : Summary) × ((execute config show title subtasks task_id r).1 ≡ ok summary)
      × IsJoin (subtasks_or title subtasks) summary
      × (length (execute config show title subtasks task_id r).0.ledger
          ≡ noted config.has_ledger config.max_entries
              (length r.ledger)
              (length (subtasks_or title subtasks)))
unfolding execute IsJoin summarise JoinsEach
execute-IsJoin config readable expired ends show title subtasks task_id r fits =
    let ds = subtasks_or title subtasks in
    let (results, joined, settled, more) =
      delegate_each-JoinsEach config readable expired ends (label config show task_id) 0 ds r
        fits in
    (
      summarise results,
      rw (joined) refl,
      (
        settled,
        length-AllSettled ds results settled,
        count-AllSettled ds results settled ∙ sym (length-AllSettled ds results settled),
      ),
      more,
    )
