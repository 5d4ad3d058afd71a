-- ===== src/Llm/Hub/Cache.antt =====
-- Files of the Hub that are opened again.
use computecloud_node.Prelude.{String, ◌≡◌, ◌∙◌, sym, ap, none, some, arith, inl, inr, Option-cases}
use computecloud_node.Prelude.Equality.{lookup, lookup-insert, string_eq}
use computecloud_node.Python.{Result, ok, raise, ◌>>=◌}
use computecloud_node.Llm.Hub.{
  Library, Hub, content, fetch, keep_open, open_fetched, open_unless, safe_open,
}

module _ {W H T : Type 0} (lib : Library W H T) (filename : String) where
  -- A file that is open is opened again as it is.
  safe_open-opened :
      (handle : H) (h : Hub W H)
      → lookup filename h.source.opened ≡ some handle
      → safe_open lib filename h ≡ (ok handle, h)
  unfolding safe_open open_unless
  safe_open-opened handle h e = ap (λ x. open_unless lib x filename h) e

  pub safe_open-closed :
      (h : Hub W H)
      → lookup filename h.source.opened ≡ none
      → safe_open lib filename h ≡ open_fetched lib filename (fetch lib filename h)
  unfolding safe_open open_unless
  safe_open-closed h e = ap (λ x. open_unless lib x filename h) e

  abbrev returned : Result H → H → H
  returned (ok handle) default = handle
  returned (raise exc) default = default

  keep_open-opened :
      (found : Result H) (handle : H) (h h' : Hub W H)
      → keep_open lib filename found h ≡ (ok handle, h')
      → lookup filename h'.source.opened ≡ some handle
  unfolding keep_open
  keep_open-opened (raise exc) handle h h' e = absurd (cc (ap (λ p. p.0) e))
  keep_open-opened (ok first) handle h h' e =
      ap (λ p. lookup filename p.1.source.opened) (sym e)
      ∙ ground (arith, lookup-insert filename filename first h.source.opened)
      ∙ ap (λ p. some (returned p.0 handle)) e

  open_fetched-opened :
      (fetched : Result (Unit {0}) × Hub W H) (handle : H) (h' : Hub W H)
      → open_fetched lib filename fetched ≡ (ok handle, h')
      → lookup filename h'.source.opened ≡ some handle
  unfolding open_fetched
  open_fetched-opened (raise exc, h) handle h' e = absurd (cc (ap (λ p. p.0) e))
  open_fetched-opened (ok done, h) handle h' e =
      keep_open-opened (content lib filename h >>= lib.safe_open) handle h h' e

  -- A file that `_safe_open` has opened is opened again without a request, a file or an entry that is
  -- new, and as the same handle.
  pub safe_open-safe_open :
      (handle : H) (h h' : Hub W H)
      → safe_open lib filename h ≡ (ok handle, h')
      → safe_open lib filename h' ≡ (ok handle, h')
  safe_open-safe_open handle h h' e = elim (Option-cases (lookup filename h.source.opened)) [
    | inl closed ↦
        safe_open-opened handle h' (
          open_fetched-opened (fetch lib filename h) handle h'
            (sym (safe_open-closed h closed) ∙ e))
    | inr (first, there) ↦
        let same = sym (safe_open-opened first h there) ∙ e in
        safe_open-opened handle h' (
          ap (λ (p : Result H × Hub W H). lookup filename p.1.source.opened) (sym same)
          ∙ there
          ∙ ap (λ (p : Result H × Hub W H). some (returned p.0 handle)) same)
  ]
