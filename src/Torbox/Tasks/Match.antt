-- ===== src/Torbox/Tasks/Match.antt =====
-- Which task is found.
use tor_boxarr.Base.{
  Bool, Bool-cases, List, Option, Str, [], and_parts, ap, arith, false, inl, inr, is_empty, lit,
  none, not, refl, some, str_eq, str_eq→eq, subst, sym, trim_space, true, ℕ, ◌&&◌, ◌||◌, ◌∷◌, ◌≡◌,
}
use tor_boxarr.Compat.Floats.{Floats}
use tor_boxarr.Torbox.Client.{Result, TaskStatus, err, ok}
use tor_boxarr.Torbox.Fields.{first_string}
use tor_boxarr.Torbox.Json.{Fields}
use tor_boxarr.Torbox.Outcome.{Holds, Holds-any}
use tor_boxarr.Torbox.Parse.{extract_queue_auth_id, parse_task_status}
use tor_boxarr.Torbox.Service.{Service, wait_for, ◌>>?◌}
use tor_boxarr.Torbox.Tasks.{
  active_among, find_active_task, get_remote_items, is_match, is_usenet, same_text,
}

-- What a status says of the task that was looked for: its id, its authorisation or its hash.
abbrev pub is_wanted : Str → Str → Str → Str → TaskStatus → Bool
is_wanted source_type remote_id queue_auth_id remote_hash status =
    same_text remote_id status.remote_id
    || (is_usenet source_type && same_text queue_auth_id status.queue_auth_id)
    || same_text remote_hash status.hash

same_text-filled : (wanted found : Str) → same_text wanted found ≡ true → is_empty found ≡ false
same_text-filled wanted found h =
    let parts =
      and_parts (not (is_empty (trim_space wanted))) (str_eq found (trim_space wanted)) h in
    rw (str_eq→eq found (trim_space wanted) parts.1) (ground (arith, parts.0))

-- A status that the service calls ready is not failed.
abbrev pub is_clear : TaskStatus → Bool
is_clear status = not (status.failed && status.download_ready)

abbrev pub AllOf : (TaskStatus → Type 0) → Option TaskStatus → Type 0
AllOf P none = Unit
AllOf P (some status) = P status

module _ (fl : Floats) (s : Service fl)
    (source_type remote_id queue_auth_id remote_hash : Str) where
  auth-same :
      (m : Fields fl.Float)
      → same_text queue_auth_id (first_string fl s.decoding m (lit "auth_id" ∷ [])) ≡ true
      → extract_queue_auth_id fl s.decoding source_type m
        ≡ first_string fl s.decoding m (lit "auth_id" ∷ [])
  unfolding extract_queue_auth_id
  auth-same m h = rw (same_text-filled queue_auth_id _ h) refl

  auth_wanted :
      (m : Fields fl.Float)
      → same_text queue_auth_id (first_string fl s.decoding m (lit "auth_id" ∷ [])) ≡ true
      → same_text queue_auth_id (extract_queue_auth_id fl s.decoding source_type m) ≡ true
  auth_wanted m h = subst (λ v. same_text queue_auth_id v ≡ true) (sym (auth-same m h)) h

  pub IsFound : TaskStatus → Type 0
  IsFound status =
      (is_wanted source_type remote_id queue_auth_id remote_hash status ≡ true)
      × (is_clear status ≡ true)

  match-IsFound :
      (m : Fields fl.Float)
      → is_match fl s source_type remote_id queue_auth_id remote_hash m ≡ true
      → IsFound (parse_task_status fl s.decoding source_type m)
  unfolding is_match parse_task_status IsFound
  match-IsFound m h = (ground (arith, auth_wanted m), ground arith)

  among-IsFound :
      (ms : List (Fields fl.Float))
      → AllOf IsFound (active_among fl s source_type remote_id queue_auth_id remote_hash ms)
  unfolding active_among
  among-IsFound [] = tt
  among-IsFound (m ∷ ms) =
      elim (Bool-cases (is_match fl s source_type remote_id queue_auth_id remote_hash m)) [
        | inl hit ↦ rw hit (match-IsFound m hit)
        | inr miss ↦ rw miss (among-IsFound ms)
      ]

  task-IsFound :
      (n : ℕ)
      → Holds
          (AllOf IsFound)
          (find_active_task fl s n source_type remote_id queue_auth_id remote_hash)
  unfolding find_active_task
  task-IsFound n = Holds-any (AllOf IsFound) (wait_for fl s s.poll_wait n 0) _ λ _.
      Holds-any (AllOf IsFound) (get_remote_items fl s n 1 source_type remote_id) _ among-IsFound

-- Whatever the service answers, a status that `FindActiveTask` returns is of a task that has the id, or
-- the authorisation if the source type is `usenet`, or the hash that was asked for, one that is not
-- empty; and the status is not both failed and ready.
pub find_active_task-is_wanted :
    (fl : Floats) (s : Service fl) (n : ℕ) (source_type remote_id queue_auth_id remote_hash : Str)
    (status : TaskStatus)
    → find_active_task fl s n source_type remote_id queue_auth_id remote_hash ≡ ok (some status)
    → (is_wanted source_type remote_id queue_auth_id remote_hash status ≡ true)
      × (is_clear status ≡ true)
unfolding IsFound
find_active_task-is_wanted fl s n source_type remote_id queue_auth_id remote_hash status h =
    subst (Holds (AllOf (IsFound fl s source_type remote_id queue_auth_id remote_hash))) h
      (task-IsFound fl s source_type remote_id queue_auth_id remote_hash n)

bind-same :
    {A B : Type 0} (r : Result A) (f g : A → Result B)
    → ((a : A) → f a ≡ g a)
    → (r >>? f) ≡ (r >>? g)
bind-same (ok a) f g h = h a
bind-same (err x) f g h = refl

among_other :
    (fl : Floats) (s : Service fl) (source_type remote_id auth other remote_hash : Str)
    (ms : List (Fields fl.Float))
    → is_usenet source_type ≡ false
    → active_among fl s source_type remote_id auth remote_hash ms
      ≡ active_among fl s source_type remote_id other remote_hash ms
unfolding active_among is_match
among_other fl s source_type remote_id auth other remote_hash [] h = refl
among_other fl s source_type remote_id auth other remote_hash (m ∷ ms) h =
    rw (h, among_other fl s source_type remote_id auth other remote_hash ms h) refl

-- For a source type other than `usenet`, as the workers' `nzb` is, `FindActiveTask` does not depend on
-- the authorisation of the queue that it is given.
pub find_active_task-other_auth :
    (fl : Floats) (s : Service fl) (n : ℕ) (source_type remote_id auth other remote_hash : Str)
    → is_usenet source_type ≡ false
    → find_active_task fl s n source_type remote_id auth remote_hash
      ≡ find_active_task fl s n source_type remote_id other remote_hash
unfolding find_active_task
find_active_task-other_auth fl s n source_type remote_id auth other remote_hash h =
    bind-same (wait_for fl s s.poll_wait n 0) _ _ λ _.
      bind-same (get_remote_items fl s n 1 source_type remote_id) _ _ λ items.
        ap (λ found. ok found)
          (among_other fl s source_type remote_id auth other remote_hash items h)
