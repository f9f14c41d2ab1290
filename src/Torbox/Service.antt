-- ===== src/Torbox/Service.antt =====
-- internal/torbox/http_client.go: a call to the service and how its answer is read.
pub mod Retry
use tor_boxarr.Base.{
  Bool, List, Option, Str, [], contains, false, if◌then◌else◌, is_empty, leb, lit, none, show_nat,
  some, to_lower, trim_space, ℕ, ◌++◌, ◌==◌, ◌||◌,
}
use tor_boxarr.Compat.Floats.{Floats}
use tor_boxarr.Torbox.Client.{Error, Result, err, mark_retryable, new_error, ok, wrap}
use tor_boxarr.Torbox.Json.{Decoding}
use tor_boxarr.Torbox.Parse.{Payload}

-- A request: a multipart form has the given fields, in no order, and a file.
pub record Call : Type 0 where
  pub method : Str
  pub path : Str
  pub fields : List (Str × Str)
  pub file : Option Str

-- What `http.NewRequestWithContext`, `httpClient.Do` and `io.ReadAll` give: an error of the first; one
-- of the second, and whether it is a `net.Error` that timed out; a status and the error that broke the
-- body off, and whether that is one; or a status and a body.
pub data Wire : Type 0 where
  not_built : Error → Wire
  not_sent : Error → Bool → Wire
  cut_off : ℕ → Error → Bool → Wire
  answered : ℕ → Str → Wire

pub record Envelope (Float : Type 0) : Type 0 where
  pub success : Bool
  -- The text of the field `error`, if it is not null.
  pub error : Option Str
  pub detail : Str
  pub data_field : Payload Float

-- The outside of the client. A call of a method has a number, and the calls that it makes are numbered
-- from 0.
pub record Service (fl : Floats) : Type 0 where
  pub decoding : Decoding fl
  pub api_token : Str
  pub create_wait : ℕ → ℕ → Option Error
  pub poll_wait : ℕ → ℕ → Option Error
  pub download_wait : ℕ → ℕ → Option Error
  pub send : ℕ → ℕ → Call → Wire
  -- `json.Unmarshal` into an envelope.
  pub unmarshal : Str → Result (Envelope fl.Float)
  -- `url.Values.Encode`, which sorts by the keys.
  pub encode : List (Str × Str) → Str
  -- `attachFile`: opening and copying the payload.
  pub attach : ℕ → ℕ → Str → Option Error
  pub quote : Str → Str

infixl 5 ◌>>?◌
abbrev pub ◌>>?◌ : {A B : Type 0} → Result A → (A → Result B) → Result B
ok a >>? f = f a
err x >>? f = err x

abbrev pub unless : Option Error → Result (Unit {0})
unless none = ok tt
unless (some x) = err x

abbrev pub status_text : ℕ → Str → Error
status_text status raw =
    new_error (lit "torbox status " ++ (show_nat status ++ (lit ": " ++ trim_space raw)))

-- `isNetRetryable`.
unfoldable pub is_net_retryable : Error → Bool → Bool
is_net_retryable x timed_out = timed_out || contains (to_lower x.message) (lit "timeout")

module _ (fl : Floats) (s : Service fl) where
  abbrev pub empty_envelope : Envelope fl.Float
  empty_envelope = record { success = false; error = none; detail = []; data_field = none }

  abbrev pub refused_by_api : Envelope fl.Float → Option Str → Result (Envelope fl.Float)
  refused_by_api env none = ok env
  refused_by_api env (some why) =
      if env.success
      then ok env
      else err
          (new_error (lit "torbox api error: " ++ (why ++ (lit " (" ++ (env.detail ++ lit ")")))))

  abbrev pub read_envelope : Result (Envelope fl.Float) → Result (Envelope fl.Float)
  read_envelope (err x) = err (wrap (lit "decode response envelope") x)
  read_envelope (ok env) = refused_by_api env env.error

  unfoldable pub read_wire : Wire → Result (Envelope fl.Float)
  read_wire (not_built x) = err (wrap (lit "new request") x)
  read_wire (not_sent x timed_out) =
      let failure = wrap (lit "torbox request failed") x in
      if is_net_retryable x timed_out then err (mark_retryable failure) else err failure
  read_wire (cut_off status x timed_out) = err (wrap (lit "read response") x)
  read_wire (answered status raw) =
      if status == 429 || leb 500 status
      then err (mark_retryable (status_text status raw))
      else if leb 400 status
      then err (status_text status raw)
      else if is_empty (trim_space raw)
      then ok empty_envelope
      else read_envelope (s.unmarshal raw)

  unfoldable pub do_call : ℕ → ℕ → Call → Result (Envelope fl.Float)
  do_call n k call = read_wire (s.send n k call)

  -- `wait` of the client, around a limiter.
  unfoldable pub wait_for : (ℕ → ℕ → Option Error) → ℕ → ℕ → Result (Unit {0})
  wait_for limiter n k = waited (limiter n k)
    where
      waited : Option Error → Result (Unit {0})
      waited none = ok tt
      waited (some x) = err (wrap (lit "rate limiter wait") x)
