-- ===== src/Files/Downloader/Rules.antt =====
-- What `Download` keeps, if its callback keeps it: the downloader itself touches no table.
use tor_boxarr.Base.{
  ℕ, ◌+◌, ℤ, pos, Bool, true, not, ◌||◌, Option, none, some, List, [], ◌∷◌, Str, ◌==◌, leb,
}
use tor_boxarr.Model.{TransferPart}
use tor_boxarr.Torbox.Client.{Error, Result, ok, err}
use tor_boxarr.World.{Env, Tables, Effect, HttpResponse, M, pure}
use tor_boxarr.World.Triple.{
  Assertion, Triple, Triple-bind, Triple-ask, Triple-pure, Triple-if, Triple-emit, Triple-given,
}
use tor_boxarr.Files.Downloader.{
  Outcome, Progress, proceed_on, or_fail, end_of_body, read_body, receive, open_and_receive,
  handle_http, request_part, after_stat, download, status_ok, status_partial, status_range,
  notify_every,
}

module _ {S : Type 0} (Good : S → Type 0) {P : Assertion}
    (free : (t : Tables) (l l' : List Effect) → P t l → P t l') where
  abbrev pub Keeps : M (Outcome S) → Type 0
  Keeps m = Triple P m (λ o t l. record { fact : Good o.state; state : P t l }) P

  done-Keeps : (o : Outcome S) → Good o.state → Keeps (pure o)
  done-Keeps o g = Triple-pure o (λ t l p. record { fact = g; state = p })

  proceed_on-Keeps :
      (f : Option Error) (o : Outcome S) (next : S → TransferPart → M (Outcome S))
      → Good o.state
      → ((s : S) (part : TransferPart) → Good s → Keeps (next s part))
      → Keeps (proceed_on f o next)
  proceed_on-Keeps none o next g h = h o.state o.part g
  proceed_on-Keeps (some x) o next g h = done-Keeps o g

  or_fail-Keeps :
      (s : S) (part : TransferPart) (text : Str) (f : Option Error) (next : M (Outcome S))
      → Good s
      → Keeps next
      → Keeps (or_fail s part text f next)
  or_fail-Keeps s part text none next g h = h
  or_fail-Keeps s part text (some x) next g h = done-Keeps _ g

  module _ (e : Env) (progress : Progress S)
      (kept : (s : S) (part : TransferPart) (done total : ℤ)
        → Good s
        → Keeps (progress s part done total)) where
    end_of_body-Keeps :
        (f : Option Error) (current : ℤ) (s : S) (part : TransferPart)
        → Good s
        → Keeps (end_of_body e progress f current s part)
    unfolding end_of_body
    end_of_body-Keeps (some x) current s part g = done-Keeps _ g
    end_of_body-Keeps none current s part g = kept s _ _ _ g

    read_body-Keeps :
        (chunks : List ℕ) (ending : Option Error) (total current : ℤ) (sent : Bool) (since : ℕ)
        (s : S) (part : TransferPart)
        → Good s
        → Keeps (read_body e progress chunks ending total current sent since s part)
    unfolding read_body
    read_body-Keeps [] ending total current sent since s part g =
        end_of_body-Keeps ending current s part g
    read_body-Keeps (n ∷ chunks) ending total current sent since s part g =
        Triple-if (n == 0) (λ _. read_body-Keeps chunks ending total current sent since s part g)
          (λ _. Triple-bind (Triple-emit _ (λ t l p. free t l _ p)) λ _.
            Triple-bind (Triple-ask _) λ f. or_fail-Keeps s part _ f _ g (
              Triple-if (not sent || leb notify_every (since + n))
                (λ _. Triple-bind (kept s _ _ _ g) λ o. Triple-given λ g'.
                  proceed_on-Keeps o.error o _ g'
                    (λ s part g. read_body-Keeps chunks ending total _ true 0 s part g))
                (λ _. read_body-Keeps chunks ending total _ sent (since + n) s _ g)))

    receive-Keeps :
        (resp : HttpResponse) (existing : ℤ) (s : S) (part : TransferPart)
        → Good s
        → Keeps (receive e progress resp existing s part)
    unfolding receive
    receive-Keeps resp existing s part g = Triple-bind (kept s _ _ _ g) λ o. Triple-given λ g'.
        proceed_on-Keeps o.error o _ g'
          (λ s part g. read_body-Keeps resp.chunks resp.read_error _ _ _ 0 s part g)

    open-Keeps :
        (resp : HttpResponse) (existing : ℤ) (s : S) (part : TransferPart)
        → Good s
        → Keeps (open_and_receive e progress resp existing s part)
    unfolding open_and_receive
    open-Keeps resp existing s part g = Triple-bind (Triple-emit _ (λ t l p. free t l _ p)) λ _.
        Triple-bind (Triple-ask _) λ f. or_fail-Keeps s part _ f _ g (receive-Keeps resp _ s part g)

    handle_http-Keeps :
        (r : Result HttpResponse) (existing : ℤ) (s : S) (part : TransferPart)
        → Good s
        → Keeps (handle_http e progress r existing s part)
    unfolding handle_http
    handle_http-Keeps (err x) existing s part g = done-Keeps _ g
    handle_http-Keeps (ok resp) existing s part g =
        Triple-if (resp.status_code == status_ok || resp.status_code == status_partial)
          (λ _. open-Keeps resp existing s part g)
          (λ _.
            Triple-if (resp.status_code == status_range) (λ _. kept s _ _ _ g)
              (λ _. done-Keeps _ g))

    request-Keeps :
        (existing : ℤ) (s : S) (part : TransferPart)
        → Good s
        → Keeps (request_part e progress existing s part)
    unfolding request_part
    request-Keeps existing s part g =
        Triple-bind (Triple-ask _) λ r. handle_http-Keeps r existing s part g

    after_stat-Keeps :
        (r : Result ℤ) (s : S) (part : TransferPart)
        → Good s
        → Keeps (after_stat e progress r s part)
    unfolding after_stat
    after_stat-Keeps (ok size) s part g = request-Keeps size s part g
    after_stat-Keeps (err x) s part g =
        Triple-if (e.is_not_exist x) (λ _. request-Keeps (pos 0) s part g) (λ _. done-Keeps _ g)

    pub download-Keeps : (s : S) (part : TransferPart) → Good s → Keeps (download e progress s part)
    unfolding download
    download-Keeps s part g = Triple-bind (Triple-emit _ (λ t l p. free t l _ p)) λ _.
        Triple-bind (Triple-ask _) λ f.
          or_fail-Keeps s part _ f _ g
            (Triple-bind (Triple-ask _) λ found. after_stat-Keeps found s part g)
