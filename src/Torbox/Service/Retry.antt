-- ===== src/Torbox/Service/Retry.antt =====
-- Which errors are retried.
use tor_boxarr.Base.{
  Bool, Bool-cases, Option, Str, contains, false, inl, inr, is_empty, leb, lit, none, refl, some,
  subst, to_lower, trim_space, true, ℕ, ◌==◌, ◌||◌, ◌≡◌,
}
use tor_boxarr.Compat.Floats.{Floats}
use tor_boxarr.Torbox.Client.{Error, Result, err, is_retryable, mark_retryable, new_error, ok, wrap}
use tor_boxarr.Torbox.Service.{
  Call, Envelope, Service, Wire, answered, cut_off, do_call, is_net_retryable, not_built, not_sent,
  read_envelope, read_wire, refused_by_api,
}

-- What the client tries again: a request that timed out before its answer came, and an answer, read to
-- its end, that asks to wait or tells of an error of the server. A body that breaks off is not among
-- them, whatever its status and also where the reading of it timed out.
abbrev pub is_transient : Wire → Bool
is_transient (not_built x) = false
is_transient (not_sent x timed_out) = timed_out || contains (to_lower x.message) (lit "timeout")
is_transient (cut_off status x timed_out) = false
is_transient (answered status raw) = status == 429 || leb 500 status

-- The error of an exchange has no mark of the client.
abbrev pub IsUnmarked : Wire → Type 0
IsUnmarked (not_built x) = x.retryable ≡ false
IsUnmarked (not_sent x timed_out) = x.retryable ≡ false
IsUnmarked (cut_off status x timed_out) = x.retryable ≡ false
IsUnmarked (answered status raw) = Unit

abbrev Marked : {A : Type 0} → Bool → Result A → Type 0
Marked b (ok a) = Unit
Marked b (err x) = x.retryable ≡ b

mark-true : (x : Error) → (mark_retryable x).retryable ≡ true
unfolding mark_retryable
mark-true x = elim (Bool-cases x.retryable) [
  | inl marked ↦ rw marked refl
  | inr unmarked ↦ rw unmarked refl
]

module _ (fl : Floats) (s : Service fl)
    (quiet : (raw : Str) (x : Error) → s.unmarshal raw ≡ err x → x.retryable ≡ false) where
  api-Marked :
      (env : Envelope fl.Float) (why : Option Str) → Marked false (refused_by_api fl s env why)
  unfolding new_error
  api-Marked env none = tt
  api-Marked env (some why) = elim (Bool-cases env.success) [
    | inl fine ↦ rw fine tt
    | inr refused ↦ rw refused refl
  ]

  envelope-Marked :
      (raw : Str) (r : Result (Envelope fl.Float))
      → s.unmarshal raw ≡ r
      → Marked false (read_envelope fl s r)
  unfolding wrap
  envelope-Marked raw (ok env) h = api-Marked env env.error
  envelope-Marked raw (err x) h = quiet raw x h

  wire-Marked : (w : Wire) → IsUnmarked w → Marked (is_transient w) (read_wire fl s w)
  unfolding read_wire is_net_retryable wrap new_error
  wire-Marked (not_sent x timed_out) h =
      elim (Bool-cases (timed_out || contains (to_lower x.message) (lit "timeout"))) [
        | inl passing ↦ rw passing (mark-true _)
        | inr lasting ↦ rw lasting h
      ]
  wire-Marked (not_built x) h = h
  wire-Marked (cut_off status x timed_out) h = h
  wire-Marked (answered status raw) h = elim (Bool-cases (status == 429 || leb 500 status)) [
    | inl passing ↦ rw passing (mark-true _)
    | inr lasting ↦ elim (Bool-cases (leb 400 status)) [
      | inl refused ↦ rw (lasting, refused) refl
      | inr fine ↦ elim (Bool-cases (is_empty (trim_space raw))) [
        | inl empty ↦ rw (lasting, fine, empty) tt
        | inr filled ↦ rw (lasting, fine, filled) (envelope-Marked raw (s.unmarshal raw) refl)
      ]
    ]
  ]

-- Where the errors of the transport and of the decoder have no mark of the client: a call that fails is
-- to be tried again exactly if the request timed out, by the type of its error or by its text, before an
-- answer came, or an answer was read to its end and has the status 429 or one from 500 on. A request
-- that cannot be built, a body that breaks off, by a time-out too, and any other answer are not tried
-- again.
pub do_call-is_transient :
    (fl : Floats) (s : Service fl) (n k : ℕ) (call : Call) (x : Error)
    → ((raw : Str) (y : Error) → s.unmarshal raw ≡ err y → y.retryable ≡ false)
    → IsUnmarked (s.send n k call)
    → do_call fl s n k call ≡ err x
    → is_retryable x ≡ is_transient (s.send n k call)
unfolding do_call
do_call-is_transient fl s n k call x quiet unmarked h =
    subst (Marked (is_transient (s.send n k call))) h
      (wire-Marked fl s quiet (s.send n k call) unmarked)
