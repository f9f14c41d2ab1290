-- ===== src/Files/Payload.antt =====
-- internal/files/layout.go: `SavePayload`. What is uploaded is its name, its size and its SHA-256.
use tor_boxarr.Base.{Option, Str, lit, none, some, ℕ}
use tor_boxarr.Files.Layout.{Layout, fs_call, payload_path_for_job}
use tor_boxarr.Paths.{dir}
use tor_boxarr.Torbox.Client.{Error, wrap}
use tor_boxarr.World.{
  Env, M, ask, emit, fault, lift, made_dir, opened_truncate, pure, with_text, written, ◌>>=◌, ◌>>◌,
}

pub record Upload : Type 0 where
  pub filename : Str
  -- `header.Open`.
  pub open_error : Option Error
  pub size : ℕ
  pub sha256 : Str
  -- How reading it ends: none is `io.EOF`.
  pub read_error : Option Error

abbrev pub copy_fault : Upload → Option Error → Option Error
copy_fault body none = body.read_error
copy_fault body (some x) = some x

-- The path of the payload and its digest.
unfoldable pub save_payload : Env → Layout → Str → Str → Upload → M (Str × Str)
save_payload e l job_id name body =
    let path = payload_path_for_job l job_id name in
    do
      fs_call (made_dir (dir path)) (λ n. e.mkdir_all n (dir path)) (lit "ensure payload parent")
      fs_call (opened_truncate path) (λ n. e.open_file n path) (lit "create payload file")
      emit (written path body.size)
      f ← ask (λ n. e.write_file n path)
      with_text (wrap (lit "write payload file")) (lift (fault (copy_fault body f)))
      pure (path, body.sha256)
