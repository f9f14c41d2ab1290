-- ===== src/Store/Exclusion.antt =====
-- Claims keep two workers from the same job.
use tor_boxarr.Base.{
  Bool, Bool-cases, List, Str, [], all, and_parts, any, arith, filter, inl, inr, is_some, not, refl,
  str_eq, str_eq→eq, true, ℤ, ◌||◌, ◌∷◌, ◌≡◌,
}
use tor_boxarr.Model.{Job, JobState, Time}
use tor_boxarr.Store.Answers.{all-filter, all-limited, all-sort_by}
use tor_boxarr.Store.Claims.{
  claim_jobs_due, claim_once, claim_tx, claimable, due_rows, ids_of, mark_claimed,
}
use tor_boxarr.Store.Jobs.{get_jobs_by_ids}
use tor_boxarr.Store.Rules.{Triple-query, Triple-retry}
use tor_boxarr.Torbox.Client.{ok}
use tor_boxarr.World.{Effect, Env, Tables, World, fault}
use tor_boxarr.World.Triple.{
  Anything, Triple, Triple-ask, Triple-bind, Triple-lift, Triple-pure, Triple-with_text, after_ok,
}

-- Whether a claim on the identifiers `ids` has left a row with an owner.
owned : List Str → Job → Bool
owned ids row = not (any (str_eq row.id) ids) || is_some row.claimed_by

mark_claimed-owned :
    (worker : Str) (now : Time) (ids : List Str) (rows : List Job)
    → all (owned ids) (mark_claimed worker now ids rows) ≡ true
unfolding mark_claimed owned
mark_claimed-owned worker now ids [] = refl
mark_claimed-owned worker now ids (row ∷ rows) = elim (Bool-cases (any (str_eq row.id) ids)) [
  | inl hit ↦ rw (hit, hit) (mark_claimed-owned worker now ids rows)
  | inr miss ↦ rw (miss, miss) (mark_claimed-owned worker now ids rows)
]

module _ (e : Env) (states : List JobState) (now : Time) (ids : List Str) where
  fresh : Job → Bool
  fresh row = not (any (str_eq row.id) ids)

  claimable-fresh :
      (row : Job) → owned ids row ≡ true → claimable e states now row ≡ true → fresh row ≡ true
  unfolding owned fresh
  claimable-fresh row own free = ground arith

  filter-fresh :
      (rows : List Job)
      → all (owned ids) rows ≡ true
      → all fresh (filter (claimable e states now) rows) ≡ true
  filter-fresh [] h = refl
  filter-fresh (row ∷ rows) h = ground (arith, filter-fresh rows, claimable-fresh row)

-- What a worker finds due is none of the jobs `ids`.
abbrev pub Spares : Env → List Str → List Job → Type 0
Spares e ids rows =
    (states : List JobState) (now : Time) (limit : ℤ)
    → all (λ row. not (any (str_eq row.id) ids)) (due_rows e states now limit rows) ≡ true

spared :
    (e : Env) (ids : List Str) (rows : List Job) → all (owned ids) rows ≡ true → Spares e ids rows
unfolding fresh
spared e ids rows h states now limit =
    all-limited _ limit _ (all-sort_by _ _ _ (filter-fresh e states now ids rows h))

none_owned : (rows : List Job) → all (owned []) rows ≡ true
unfolding owned
none_owned [] = refl
none_owned (row ∷ rows) = none_owned rows

among :
    (x : Str) (ids : List Str) (jobs : List Job)
    → all (λ row. any (str_eq row.id) ids) jobs ≡ true
    → any (str_eq x) (ids_of jobs) ≡ true
    → any (str_eq x) ids ≡ true
among x ids [] h k = absurd (ground (arith, k))
among x ids (job ∷ jobs) h k =
    let (first, rest) = and_parts (any (str_eq job.id) ids) _ h in
    elim (Bool-cases (str_eq x job.id)) [
      | inl same ↦ rw (str_eq→eq x job.id same) first
      | inr other ↦ among x ids jobs rest (rw other at k)
    ]

fewer_owned :
    (ids : List Str) (jobs rows : List Job)
    → all (λ row. any (str_eq row.id) ids) jobs ≡ true
    → all (owned ids) rows ≡ true
    → all (owned (ids_of jobs)) rows ≡ true
unfolding owned
fewer_owned ids jobs [] h k = refl
fewer_owned ids jobs (row ∷ rows) h k =
    ground (arith, among row.id ids jobs h, fewer_owned ids jobs rows h)

abbrev Claimed : List Str → Tables → List Effect → Type 0
Claimed ids t l = all (owned ids) t.jobs ≡ true

claim_tx-owns :
    (e : Env) (worker : Str) (ids : List Str) (now : Time)
    → Triple Anything (claim_tx e worker ids now) Claimed Anything
unfolding claim_tx
claim_tx-owns e worker [] now = Triple-pure [] (λ t l h. none_owned t.jobs)
claim_tx-owns e worker (i ∷ is) now = Triple-bind (Triple-ask _) λ updated.
    Triple-bind (Triple-with_text _ (Triple-lift (fault updated) (λ a h t l p. p) (λ t l p. p)))
      λ _. Triple-bind (Triple-ask _) λ committed.
        Triple-bind
          (Triple-with_text _ (Triple-lift (fault committed) (λ a h t l p. p) (λ t l p. p)))
          λ _. record { run = λ w p. mark_claimed-owned worker now (i ∷ is) w.jobs }

claim_once-owns :
    (e : Env) (worker : Str) (states : List JobState) (now : Time) (limit : ℤ)
    → Triple Anything (claim_once e worker states now limit) Claimed Anything
unfolding claim_once
claim_once-owns e worker states now limit = Triple-bind (Triple-ask _) λ begun.
    Triple-bind (Triple-with_text _ (Triple-lift (fault begun) (λ a h t l p. p) (λ t l p. p))) λ _.
      Triple-bind {Q = λ _. Anything}
        (Triple-with_text _ (Triple-query e _ (λ t l p. p) (λ t l p. p)))
        λ ids. claim_tx-owns e worker ids now

get_jobs-owns :
    (e : Env) (ids : List Str)
    → Triple
        (Claimed ids)
        (get_jobs_by_ids e ids)
        (λ jobs t l. all (owned (ids_of jobs)) t.jobs ≡ true)
        Anything
unfolding get_jobs_by_ids
get_jobs-owns e [] = Triple-pure [] (λ t l h. h)
get_jobs-owns e (i ∷ is) =
    Triple-query e _ (λ t l p. tt)
      λ t l p.
        fewer_owned (i ∷ is) _ t.jobs
          (all-sort_by _ _ _ (all-filter (λ row. any (str_eq row.id) (i ∷ is)) t.jobs)) p

claim_jobs_due-owns :
    (e : Env) (worker : Str) (states : List JobState) (now : Time) (limit : ℤ)
    → Triple Anything
        (claim_jobs_due e worker states now limit)
        (λ jobs t l. all (owned (ids_of jobs)) t.jobs ≡ true)
        Anything
unfolding claim_jobs_due
claim_jobs_due-owns e worker [] now limit = Triple-pure [] (λ t l h. none_owned t.jobs)
claim_jobs_due-owns e worker (s ∷ ss) now limit =
    Triple-bind
      (Triple-retry e _ (λ t l d p. p) (λ t l p. p) (claim_once-owns e worker (s ∷ ss) now limit))
      λ ids. get_jobs-owns e ids

-- Where `ClaimJobsDue` returns jobs to a worker, the rows that it leaves have none of these jobs free
-- and due, whatever states, time and limit another look for due jobs asks for.
pub claim_jobs_due-exclusive :
    (e : Env) (worker : Str) (states : List JobState) (now : Time) (limit : ℤ) (w : World)
    (jobs : List Job)
    → (claim_jobs_due e worker states now limit w).0 ≡ ok jobs
    → Spares e (ids_of jobs) (claim_jobs_due e worker states now limit w).1.jobs
claim_jobs_due-exclusive e worker states now limit w jobs h = spared e (ids_of jobs) _ (
    after_ok (λ jobs t l. all (owned (ids_of jobs)) t.jobs ≡ true) _ _ jobs h
      ((claim_jobs_due-owns e worker states now limit).run w tt))
