-- ===== src/Llm/Hub/Loss.antt =====
-- What a download that breaks off, another revision, and a model without an index leave behind.
use computecloud_node.Prelude.{
  ℕ, String, ◌≡◌, refl, ◌∙◌, sym, ap, Bool, true, false, Option, none, some, List, [], arith,
}
use computecloud_node.Prelude.Equality.{lookup, has, insert, lookup-insert, string_eq}
use computecloud_node.Python.{Result, ok, raise, Exc, transport_error, ◌>>=◌, Fields, empty}
use computecloud_node.Llm.Hub.Cache.{safe_open-closed}
use computecloud_node.Llm.Hub.{
  Library, Hub, Download, broken, refused, whole, open_unless, ensure_unless, keys_indexed, keys_of,
  index_of, cache_path, url_of, written, download, fetch, fetch_unless, content_of, keep_open,
  open_fetched, safe_open, index_name, single_name, with_index, index_single, index_fetched,
  ensure_index, list_keys,
}

-- The source at another revision.
abbrev pub at_revision : {W H : Type 0} → String → Hub W H → Hub W H
at_revision revision h = record h { source = record h.source { revision = revision } }

module _ {W H T : Type 0} (lib : Library W H T) (filename : String) where
  has_of :
      (found : Option (List ℕ)) (h : Hub W H)
      → lookup (cache_path h.source filename) h.files ≡ found
      → has (cache_path h.source filename) h.files ≡ elim found [ none ↦ false | some bytes ↦ true ]
  has_of found h e = ap (λ x. elim x [ none ↦ false | some bytes ↦ true ]) e

  fetch-stored :
      (bytes : List ℕ) (h : Hub W H)
      → lookup (cache_path h.source filename) h.files ≡ some bytes
      → fetch lib filename h ≡ (ok tt, h)
  unfolding fetch fetch_unless
  fetch-stored bytes h stored =
      ap (λ x. fetch_unless lib x filename h) (has_of (some bytes) h stored)

  open_fetched-stored :
      (bytes : List ℕ) (h : Hub W H)
      → lookup (cache_path h.source filename) h.files ≡ some bytes
      → open_fetched lib filename (ok tt, h) ≡ keep_open lib filename (lib.safe_open bytes) h
  unfolding open_fetched
  open_fetched-stored bytes h stored =
      ap (λ x. keep_open lib filename (content_of lib x >>= lib.safe_open) h) stored

  opened_stored :
      (bytes : List ℕ) (h : Hub W H)
      → lookup filename h.source.opened ≡ none
      → lookup (cache_path h.source filename) h.files ≡ some bytes
      → safe_open lib filename h ≡ keep_open lib filename (lib.safe_open bytes) h
  opened_stored bytes h closed stored =
      safe_open-closed lib filename h closed
      ∙ ap (open_fetched lib filename) (fetch-stored bytes h stored)
      ∙ open_fetched-stored bytes h stored

  fetch-missing :
      (h : Hub W H)
      → lookup (cache_path h.source filename) h.files ≡ none
      → fetch lib filename h
        ≡ written (cache_path h.source filename) (lib.stream (url_of h.source filename) h.world) h
  unfolding fetch fetch_unless download
  fetch-missing h missing = ap (λ x. fetch_unless lib x filename h) (has_of none h missing)

  -- A file that stands in the directory, and that is not open, is opened without a request as it
  -- stands there, whatever revision the source is for.
  pub safe_open_stored :
      (bytes : List ℕ) (revision : String) (h : Hub W H)
      → lookup filename h.source.opened ≡ none
      → lookup (cache_path h.source filename) h.files ≡ some bytes
      → safe_open lib filename (at_revision revision h)
        ≡ keep_open lib filename (lib.safe_open bytes) (at_revision revision h)
  unfolding cache_path
  safe_open_stored bytes revision h closed stored =
      opened_stored bytes (at_revision revision h) closed stored

  -- A download that breaks off raises, and leaves its content in the directory: the next
  -- `_safe_open` of the file makes no request, and opens that content as if it were the file.
  pub safe_open_broken :
      (bytes : List ℕ) (w : W) (h : Hub W H)
      → lookup filename h.source.opened ≡ none
      → lookup (cache_path h.source filename) h.files ≡ none
      → lib.stream (url_of h.source filename) h.world ≡ (broken bytes, w)
      → (h' : Hub W H) × (safe_open lib filename h ≡ (raise transport_error, h'))
        × (h'.world ≡ w)
        × (safe_open lib filename h' ≡ keep_open lib filename (lib.safe_open bytes) h')
  unfolding open_fetched written
  safe_open_broken bytes w h closed missing breaks =
      let path = cache_path h.source filename in
      let h' = record h { world = w; files = insert path bytes h.files } in
      let stored : lookup path h'.files ≡ some bytes =
        ground (arith, lookup-insert path path bytes h.files) in
      (
        h',
        safe_open-closed lib filename h closed
            ∙ ap (open_fetched lib filename)
                (fetch-missing h missing ∙ ap (λ answer. written path answer h) breaks),
        refl,
        opened_stored bytes h' closed stored,
      )

module _ {W H T : Type 0} (lib : Library W H T) where
  -- What opens a file leaves the index as it is.
  abbrev index_after {ℓ} : {A : Type ℓ} → A × Hub W H → Option Fields
  index_after p = p.1.source.index

  written-index :
      (dest : String) (answer : Download) (w : W) (h : Hub W H)
      → index_after (written dest (answer, w) h) ≡ h.source.index
  unfolding written
  written-index dest refused w h = refl
  written-index dest (broken bytes) w h = refl
  written-index dest (whole bytes) w h = refl

  fetch_unless-index :
      (stored : Bool) (filename : String) (h : Hub W H)
      → index_after (fetch_unless lib stored filename h) ≡ h.source.index
  unfolding fetch_unless download
  fetch_unless-index true filename h = refl
  fetch_unless-index false filename h = written-index _ (lib.stream _ h.world).0 _ h

  keep_open-index :
      (filename : String) (found : Result H) (h : Hub W H)
      → index_after (keep_open lib filename found h) ≡ h.source.index
  unfolding keep_open
  keep_open-index filename (raise exc) h = refl
  keep_open-index filename (ok handle) h = refl

  open_fetched-index :
      (filename : String) (fetched : Result (Unit {0}) × Hub W H)
      → index_after (open_fetched lib filename fetched) ≡ index_after fetched
  unfolding open_fetched
  open_fetched-index filename (raise exc, h) = refl
  open_fetched-index filename (ok done, h) = keep_open-index filename _ h

  open_unless-index :
      (opened : Option H) (filename : String) (h : Hub W H)
      → index_after (open_unless lib opened filename h) ≡ h.source.index
  unfolding open_unless fetch
  open_unless-index (some handle) filename h = refl
  open_unless-index none filename h =
      open_fetched-index filename (fetch lib filename h) ∙ fetch_unless-index _ filename h

  list_keys-indexed : (h : Hub W H) → h.source.index ≡ some empty → list_keys lib h ≡ (ok [], h)
  unfolding list_keys ensure_index ensure_unless
  list_keys-indexed h e =
      ap (λ x. keys_indexed lib (ensure_unless lib x h)) e
      ∙ ap (λ x. (ok (keys_of lib (index_of lib x)), h)) e

  -- A source that has read no index, where the index and then `model.safetensors`, which is not open,
  -- cannot be had: `list_keys` raises what the second of them raises; called again on what that leaves,
  -- it returns no key at all, without a request.
  pub list_keys_lost :
      (exc exc' : Exc) (h h1 h' : Hub W H)
      → h.source.index ≡ none
      → fetch lib (index_name lib) h ≡ (raise exc, h1)
      → lookup (single_name lib) h1.source.opened ≡ none
      → fetch lib (single_name lib) (with_index empty h1) ≡ (raise exc', h')
      → (list_keys lib h ≡ (raise exc', h')) × (list_keys lib h' ≡ (ok [], h'))
  unfolding list_keys ensure_index ensure_unless index_fetched open_fetched index_single
  list_keys_lost exc exc' h h1 h' unread fails closed fails' =
      let kept : h'.source.index ≡ some empty =
        ap index_after (sym fails')
        ∙ fetch_unless-index _ (single_name lib) (with_index empty h1) in
      let lost =
        safe_open-closed lib (single_name lib) (with_index empty h1) closed
        ∙ ap (open_fetched lib (single_name lib)) fails' in
      (
        ap (λ x. keys_indexed lib (ensure_unless lib x h)) unread
            ∙ ap (λ x. keys_indexed lib (index_fetched lib x)) fails
            ∙ ap (λ x. keys_indexed lib (index_single lib x)) lost,
        list_keys-indexed h' kept,
      )
