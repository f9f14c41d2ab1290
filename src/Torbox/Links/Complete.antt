-- ===== src/Torbox/Links/Complete.antt =====
-- The links of a task.
use tor_boxarr.Base.{
  Bool, Bool-cases, List, Option, Str, [], all, false, inl, inr, is_empty, none, not, refl, some,
  subst, true, ℕ, ◌+◌, ◌∷◌, ◌≡◌,
}
use tor_boxarr.Compat.Floats.{Floats}
use tor_boxarr.Model.{second}
use tor_boxarr.Torbox.Client.{DownloadAsset, RemoteFile, ok, require_remote_id}
use tor_boxarr.Torbox.Json.{Decoding, Fields, Json, array, flag, null, number, object, string}
use tor_boxarr.Torbox.Links.{
  get_download_links, link_at, links_from, links_of_first, links_or_zip, request_download_link,
}
use tor_boxarr.Torbox.Outcome.{Holds, Holds-any, Holds-bind}
use tor_boxarr.Torbox.Parse.{extract_remote_files, link_or, parse_link}
use tor_boxarr.Torbox.Service.{Service, do_call, unless, wait_for}
use tor_boxarr.Torbox.Tasks.{get_remote_items, is_torrent_type, is_usenet_type}

-- A list of assets that has one, each with a URL.
abbrev pub has_url : DownloadAsset → Bool
has_url asset = not (is_empty asset.url)

abbrev pub HasLinks : List DownloadAsset → Type 0
HasLinks [] = ⊥
HasLinks (a ∷ assets) = all has_url (a ∷ assets) ≡ true

abbrev NotEmpty : Str → Type 0
NotEmpty link = not (is_empty link) ≡ true

link_or-NotEmpty : (fl : Floats) (d : Decoding fl) (link : Str) → Holds NotEmpty (link_or fl d link)
link_or-NotEmpty fl d [] = tt
link_or-NotEmpty fl d (c ∷ s) = refl

parse_link-NotEmpty :
    (fl : Floats) (d : Decoding fl) (v : Option (Json fl.Float))
    → Holds NotEmpty (parse_link fl d v)
unfolding parse_link
parse_link-NotEmpty fl d none = tt
parse_link-NotEmpty fl d (some null) = tt
parse_link-NotEmpty fl d (some (string s)) = link_or-NotEmpty fl d s
parse_link-NotEmpty fl d (some (object m)) = link_or-NotEmpty fl d _
parse_link-NotEmpty fl d (some (array items)) = link_or-NotEmpty fl d _
parse_link-NotEmpty fl d (some (flag b)) = tt
parse_link-NotEmpty fl d (some (number x)) = tt

module _ (fl : Floats) (s : Service fl) (n : ℕ) (source_type remote_id : Str) where
  link_at-NotEmpty :
      (k : ℕ) (path : Str) (args : List (Str × Str)) → Holds NotEmpty (link_at fl s n k path args)
  link_at-NotEmpty k path args =
      Holds-any NotEmpty (do_call fl s n k _) _
        λ env. parse_link-NotEmpty fl s.decoding env.data_field

  request-NotEmpty :
      (k : ℕ) (file_id : Str) (zip_link : Bool)
      → Holds NotEmpty (request_download_link fl s n k source_type remote_id file_id zip_link)
  unfolding request_download_link
  request-NotEmpty k file_id zip_link = elim (Bool-cases (is_torrent_type source_type)) [
    | inl first ↦ rw first (link_at-NotEmpty k _ _)
    | inr other ↦ elim (Bool-cases (is_usenet_type source_type)) [
      | inl second ↦ rw (other, second) (link_at-NotEmpty k _ _)
      | inr unknown ↦ rw (other, unknown) tt
    ]
  ]

  AllHave : List DownloadAsset → Type 0
  AllHave assets = all has_url assets ≡ true

  links_from-have :
      (k : ℕ) (files : List RemoteFile)
      → Holds AllHave (links_from fl s n k source_type remote_id files)
  unfolding links_from AllHave
  links_from-have k [] = refl
  links_from-have k (file ∷ files) = Holds-any AllHave (wait_for fl s s.download_wait n k) _ λ _.
      Holds-bind NotEmpty AllHave _ _ (request-NotEmpty (k + 1) file.file_id false) λ link set.
        Holds-bind AllHave AllHave _ _ (links_from-have (k + 2) files)
          λ assets have. rw (set, have) refl

  links_from-HasLinks :
      (k : ℕ) (file : RemoteFile) (files : List RemoteFile)
      → Holds HasLinks (links_from fl s n k source_type remote_id (file ∷ files))
  unfolding links_from AllHave
  links_from-HasLinks k file files = Holds-any HasLinks (wait_for fl s s.download_wait n k) _ λ _.
      Holds-bind NotEmpty HasLinks _ _ (request-NotEmpty (k + 1) file.file_id false) λ link set.
        Holds-bind AllHave HasLinks _ _ (links_from-have (k + 2) files)
          λ assets have. rw (set, have) refl

  files-HasLinks :
      (files : List RemoteFile) → Holds HasLinks (links_or_zip fl s n source_type remote_id files)
  files-HasLinks [] =
      Holds-any HasLinks (wait_for fl s s.download_wait n 2) _
        λ _. Holds-bind NotEmpty HasLinks _ _ (request-NotEmpty 3 [] true) λ link set. rw set refl
  files-HasLinks (file ∷ files) = links_from-HasLinks 2 file files

  items-HasLinks :
      (items : List (Fields fl.Float))
      → Holds HasLinks (links_of_first fl s n source_type remote_id items)
  items-HasLinks [] = tt
  items-HasLinks (m ∷ ms) = files-HasLinks (extract_remote_files fl s.decoding m)

  links-HasLinks : Holds HasLinks (get_download_links fl s n source_type remote_id)
  unfolding get_download_links
  links-HasLinks = Holds-any HasLinks (unless (require_remote_id remote_id)) _ λ _.
      Holds-any HasLinks (wait_for fl s s.poll_wait n 0) _
        λ _. Holds-any HasLinks (get_remote_items fl s n 1 source_type remote_id) _ items-HasLinks

-- Whatever the service answers, assets that `GetDownloadLinks` returns without an error are not none,
-- and each of them has a URL.
pub get_download_links-HasLinks :
    (fl : Floats) (s : Service fl) (n : ℕ) (source_type remote_id : Str)
    (assets : List DownloadAsset)
    → get_download_links fl s n source_type remote_id ≡ ok assets
    → HasLinks assets
get_download_links-HasLinks fl s n source_type remote_id assets h =
    subst (Holds HasLinks) h (links-HasLinks fl s n source_type remote_id)
