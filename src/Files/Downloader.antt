-- ===== src/Files/Downloader.antt =====
-- internal/files/downloader.go: a part is downloaded into its file, from where the file ends. The
-- callback may change the part and a state `S` of its own, also where it fails, so the errors of
-- this file are values.
pub mod Rules
pub mod Count
use tor_boxarr.Base.{
  ℕ, ◌+◌, ℤ, pos, Bool, true, false, not, ◌&&◌, ◌||◌, Option, none, some, List, [], ◌∷◌, Str,
  if◌then◌else◌, ◌==◌, leb, lit, is_empty, trim_space, ltb_ℤ, eqb_ℤ, add64, parse_int, ◌++◌,
  show_nat,
}
use tor_boxarr.Model.{TransferPart}
use tor_boxarr.Paths.{dir, slash}
use tor_boxarr.Torbox.Client.{Error, Result, ok, err, wrap}
use tor_boxarr.World.{
  Env, HttpResponse, M, pure, ask, emit, made_dir, opened_append, opened_truncate, written, ◌>>=◌,
  ◌>>◌,
}

abbrev pub notify_every : ℕ
notify_every = 1_048_576

abbrev pub status_ok : ℕ
status_ok = 200

abbrev pub status_partial : ℕ
status_partial = 206

abbrev pub status_range : ℕ
status_range = 416

unfoldable pub http_status_error : ℕ → Error
http_status_error code = record {
  message = lit "download part status " ++ show_nat code;
  retryable = false;
  http_status = some code;
  sqlite_code = none;
}

pub record Outcome (S : Type 0) : Type 0 where
  pub state : S
  pub part : TransferPart
  pub error : Option Error

abbrev pub Progress : Type 0 → Type 0
Progress S = S → TransferPart → ℤ → ℤ → M (Outcome S)

-- The text behind the last `/`, if there is one.
unfoldable pub after_last_slash : Str → Option Str
after_last_slash [] = none
after_last_slash (c ∷ s) =
    let later = after_last_slash s in
    elim later [ some t ↦ some t | none ↦ if c == slash then some s else none ]

abbrev pub parsed_after : Option Str → Option ℤ
parsed_after none = none
parsed_after (some t) = parse_int t

-- The size that `Content-Range` names, of a partial answer.
unfoldable pub range_total : HttpResponse → Option ℤ
range_total resp =
    if resp.status_code == status_partial
    then parsed_after (after_last_slash resp.content_range)
    else none

unfoldable pub content_length : HttpResponse → ℤ → ℤ
content_length resp existing = elim (range_total resp) [
  | some total ↦ total
  | none ↦ if ltb_ℤ (pos 0) resp.content_length then add64 existing resp.content_length else pos 0
]

abbrev pub or_length : TransferPart → ℤ → TransferPart
or_length part n = record part {
  content_length = if eqb_ℤ part.content_length (pos 0) then n else part.content_length;
}

module _ {S : Type 0} where
  abbrev pub failed_with : S → TransferPart → Error → M (Outcome S)
  failed_with s part x = pure (record { state = s; part = part; error = some x })

  -- `if err != nil { return err }` behind an outcome.
  abbrev pub proceed_on :
      Option Error → Outcome S → (S → TransferPart → M (Outcome S)) → M (Outcome S)
  proceed_on none o next = next o.state o.part
  proceed_on (some x) o next = pure o

  abbrev pub proceed : Outcome S → (S → TransferPart → M (Outcome S)) → M (Outcome S)
  proceed o next = proceed_on o.error o next

  abbrev pub or_fail : S → TransferPart → Str → Option Error → M (Outcome S) → M (Outcome S)
  or_fail s part text none next = next
  or_fail s part text (some x) next = failed_with s part (wrap text x)

  module _ (e : Env) (progress : Progress S) where
    -- Behind the last chunk: the end of the body or the error of `Read`.
    unfoldable pub end_of_body : Option Error → ℤ → S → TransferPart → M (Outcome S)
    end_of_body (some x) current s part = failed_with s part (wrap (lit "read response body") x)
    end_of_body none current s part =
        let part = or_length (record part { bytes_done = current }) current in
        progress s part current part.content_length

    -- The loop over the chunks: `fresh` is `sentFirstWriteProgress`, `written_since` counts the
    -- bytes since the last notice.
    unfoldable pub read_body :
        List ℕ → Option Error → ℤ → ℤ → Bool → ℕ → S → TransferPart → M (Outcome S)
    read_body [] ending total current sent written_since s part = end_of_body ending current s part
    read_body (n ∷ chunks) ending total current sent written_since s part =
        let next = add64 current (pos n) in
        let part' = record part { bytes_done = next } in
        let quiet = read_body chunks ending total next sent (written_since + n) s part' in
        let after_notice =
          λ (s : S) (part : TransferPart). read_body chunks ending total next true 0 s part in
        let skip = read_body chunks ending total current sent written_since s part in
        if n == 0 then skip else (do
          emit (written part.temp_path n)
          fault ← ask (λ k. e.write_file k part.temp_path)
          or_fail s part (lit "write temp file") fault (
              if not sent || leb notify_every (written_since + n)
              then (progress s part' next total >>= λ o. proceed o after_notice)
              else quiet))

    abbrev pub tagged : TransferPart → Str → TransferPart
    tagged part etag = record part {
      etag = if is_empty (trim_space etag) then part.etag else some (trim_space etag);
    }

    abbrev pub sized : TransferPart → ℤ → TransferPart
    sized part total = record part {
      content_length = if ltb_ℤ (pos 0) total then total else part.content_length;
    }

    -- The file is open; `existing` bytes of it are kept.
    unfoldable pub receive : HttpResponse → ℤ → S → TransferPart → M (Outcome S)
    receive resp existing s part =
        let total = content_length resp existing in
        progress s (sized (tagged part resp.etag) total) existing total >>= λ o. proceed o λ s part.
          read_body resp.chunks resp.read_error total existing (ltb_ℤ (pos 0) existing) 0 s part

    abbrev pub resumes : HttpResponse → ℤ → Bool
    resumes resp existing = ltb_ℤ (pos 0) existing && resp.status_code == status_partial

    unfoldable pub open_and_receive : HttpResponse → ℤ → S → TransferPart → M (Outcome S)
    open_and_receive resp existing s part = do
      emit (
          if resumes resp existing
          then opened_append part.temp_path
          else opened_truncate part.temp_path)
      fault ← ask (λ k. e.open_file k part.temp_path)
      or_fail s part (lit "open temp file") fault
          (receive resp (if resumes resp existing then existing else pos 0) s part)

    unfoldable pub handle_http : Result HttpResponse → ℤ → S → TransferPart → M (Outcome S)
    handle_http (err x) existing s part = failed_with s part (wrap (lit "download part") x)
    handle_http (ok resp) existing s part =
        let part' = or_length (record part { bytes_done = existing }) existing in
        if resp.status_code == status_ok || resp.status_code == status_partial
        then open_and_receive resp existing s part
        else if resp.status_code == status_range
        then progress s part' existing part'.content_length
        else failed_with s part (http_status_error resp.status_code)

    abbrev pub range_of : ℤ → Option ℤ
    range_of existing = if ltb_ℤ (pos 0) existing then some existing else none

    unfoldable pub request_part : ℤ → S → TransferPart → M (Outcome S)
    request_part existing s part = do
      answer ← ask (λ k. e.http_get k part.source_url (range_of existing))
      handle_http answer existing s part

    unfoldable pub after_stat : Result ℤ → S → TransferPart → M (Outcome S)
    after_stat (ok size) s part = request_part size s part
    after_stat (err x) s part =
        if e.is_not_exist x
        then request_part (pos 0) s part
        else failed_with s part (wrap (lit "stat temp part") x)

    unfoldable pub download : S → TransferPart → M (Outcome S)
    download s part = do
      emit (made_dir (dir part.temp_path))
      fault ← ask (λ k. e.mkdir_all k (dir part.temp_path))
      or_fail s part (lit "ensure part directory") fault
          (ask (λ k. e.stat k part.temp_path) >>= λ found. after_stat found s part)
