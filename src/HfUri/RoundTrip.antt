-- ===== src/HfUri/RoundTrip.antt =====
-- Parsing what is built, and what parsing lets through.
use computecloud_node.Prelude.{
  ℕ, ◌≡◌, refl, ◌∙◌, sym, ==_iff, ap, all-append, all_mono, Bool, true, false, Option, none, some,
  List, [], ◌∷◌, ◌++◌, length, drop, all, any, ◌&&◌, ◌||◌, not, ◌==◌, if◌then◌else◌, arith,
  Bool-cases, inl, inr,
}
use computecloud_node.Python.{
  Result, ok, raise, value_error, returns, check, codes, is_space, strip, strip_left, strip_right,
}
use computecloud_node.Python.Text.{starts_with, is_infix}
use computecloud_node.HfUri.{
  is_alnum, is_revision_char, is_name_char, is_name, is_revision, split_at_sign, default_revision,
  scheme, is_control, parse_stripped, match_parts, check_parts, parse_hf_uri, uri_of, build_hf_uri,
}

name_char_plain : (c : ℕ) → is_name_char c ≡ true → is_space c ≡ false
name_char_plain c h = ground arith

name_char_no_sign : (c : ℕ) → is_name_char c ≡ true → (c == b'@') ≡ false
name_char_no_sign c h = ground arith

alnum_name_char : (c : ℕ) → is_alnum c ≡ true → is_name_char c ≡ true
alnum_name_char c h = rw h

revision_name_char : (c : ℕ) → is_revision_char c ≡ true → is_name_char c ≡ true
revision_name_char c h = rw h

-- The characters of an address.
is_uri_char : ℕ → Bool
is_uri_char c = is_name_char c || c == b'@' || c == b':'

uri_char_plain : (c : ℕ) → is_uri_char c ≡ true → is_space c ≡ false
unfolding is_uri_char
uri_char_plain c h = ground arith

uri_char_no_control : (c : ℕ) → is_uri_char c ≡ true → is_control c ≡ false
unfolding is_uri_char
uri_char_no_control c h = ground arith

strip_left_plain : (s : List ℕ) → all is_uri_char s ≡ true → strip_left s ≡ s
unfolding strip_left
strip_left_plain [] h = refl
strip_left_plain (c ∷ s) h = ground (arith, uri_char_plain c)

strip_right_plain : (s : List ℕ) → all is_uri_char s ≡ true → strip_right s ≡ s
unfolding strip_right
strip_right_plain [] h = refl
strip_right_plain (c ∷ s) h =
    rw (strip_right_plain s (ground arith), strip_right)
      (kept c s (ground (arith, uri_char_plain c)))
  where
    kept :
        (c : ℕ) (s : List ℕ)
        → is_space c ≡ false
        → elim s as (λ _. List ℕ) [ [] ↦ if is_space c then [] else c ∷ [] | d ∷ t ↦ c ∷ d ∷ t ]
          ≡ c ∷ s
    kept c [] e = rw e
    kept c (d ∷ t) e = refl

strip_plain : (s : List ℕ) → all is_uri_char s ≡ true → strip s ≡ s
unfolding strip
strip_plain s h = rw (strip_left_plain s h) (strip_right_plain s h)

no_control_plain : (s : List ℕ) → all is_uri_char s ≡ true → any is_control s ≡ false
no_control_plain [] h = refl
no_control_plain (c ∷ s) h = ground (arith, uri_char_no_control c, no_control_plain s)

split_at_sign-append :
    (m r : List ℕ) → all is_name_char m ≡ true → split_at_sign (m ++ b'@' ∷ r) ≡ (m, some r)
unfolding split_at_sign
split_at_sign-append [] r h = refl
split_at_sign-append (c ∷ m) r h = ground (arith, split_at_sign-append m r, name_char_no_sign c)

split_at_sign-none : (m : List ℕ) → all is_name_char m ≡ true → split_at_sign m ≡ (m, none)
unfolding split_at_sign
split_at_sign-none [] h = refl
split_at_sign-none (c ∷ m) h = ground (arith, split_at_sign-none m, name_char_no_sign c)

is_name-all : (m : List ℕ) → is_name m ≡ true → all is_name_char m ≡ true
is_name-all [] h = refl
is_name-all (c ∷ m) h = ground (arith, alnum_name_char c)

is_revision-all : (r : List ℕ) → is_revision r ≡ true → all is_name_char r ≡ true
is_revision-all [] h = refl
is_revision-all (c ∷ r) h = all_mono is_revision_char is_name_char revision_name_char (c ∷ r) h

abbrev dots : List ℕ
dots = codes ".."

-- Two dots do not stand across an `@`.
is_infix-append :
    (xs ys : List ℕ) → is_infix dots (xs ++ b'@' ∷ ys) ≡ (is_infix dots xs || is_infix dots ys)
unfolding is_infix starts_with
is_infix-append [] ys = refl
is_infix-append (x ∷ []) ys = ground arith
is_infix-append (x ∷ y ∷ xs) ys = ground (arith, is_infix-append (y ∷ xs) ys)

starts_with-append : (s p : List ℕ) → starts_with s p ≡ true → s ≡ p ++ drop (length p) s
unfolding starts_with
starts_with-append s [] h = refl
starts_with-append [] (d ∷ p) h = absurd (cc)
starts_with-append (c ∷ s) (d ∷ p) h = ground (arith, starts_with-append s p)

-- The text that was split.
unsplit : List ℕ × Option (List ℕ) → List ℕ
unsplit (before, none) = before
unsplit (before, some after) = before ++ b'@' ∷ after

unsplit_cons : (c : ℕ) (p : List ℕ × Option (List ℕ)) → unsplit (c ∷ p.0, p.1) ≡ c ∷ unsplit p
unfolding unsplit
unsplit_cons c (before, none) = refl
unsplit_cons c (before, some after) = refl

unsplit-split_at_sign : (s : List ℕ) → unsplit (split_at_sign s) ≡ s
unfolding split_at_sign unsplit
unsplit-split_at_sign [] = refl
unsplit-split_at_sign (c ∷ s) = elim (Bool-cases (c == b'@')) [
  | inl sign ↦ rw sign (ap (λ (d : ℕ). d ∷ s) (sym ((==_iff c b'@').0 sign)))
  | inr other ↦ rw other (unsplit_cons c (split_at_sign s) ∙ ap (◌∷◌ c) (unsplit-split_at_sign s))
]

-- A name and a revision that the parser lets through.
pub record IsAddress (m r : List ℕ) : Type 0 where
  pub name : is_name m ≡ true
  pub revision : is_revision r ≡ true
  pub name_dots : is_infix dots m ≡ false
  pub revision_dots : is_infix dots r ≡ false
  pub parts : check_parts m r ≡ ok tt

name_uri_char : (c : ℕ) → is_name_char c ≡ true → is_uri_char c ≡ true
unfolding is_uri_char
name_uri_char c h = rw h

uri_of_plain : (m r : List ℕ) → IsAddress m r → all is_uri_char (uri_of m r) ≡ true
uri_of_plain m r a =
    let name = all_mono is_name_char is_uri_char name_uri_char m (is_name-all m a.name) in
    let revision =
      all_mono is_name_char is_uri_char name_uri_char r (is_revision-all r a.revision) in
    rw (all-append is_uri_char m (b'@' ∷ r), name, revision) (unfold is_uri_char in refl)

scheme_found : (s : List ℕ) → starts_with (scheme ++ s) scheme ≡ true
unfolding starts_with
scheme_found s = refl

scheme-is_infix : (s : List ℕ) → is_infix dots (scheme ++ s) ≡ is_infix dots s
unfolding is_infix starts_with
scheme-is_infix s = refl

not_empty : (m r : List ℕ) → (length (m ++ b'@' ∷ r) == 0) ≡ false
not_empty [] r = ground arith
not_empty (c ∷ m) r = ground arith

match_parts_lem :
    (m r : List ℕ) → is_name m ≡ true → is_revision r ≡ true → match_parts (m, some r) ≡ ok (m, r)
unfolding match_parts
match_parts_lem m r name revision = rw (name, revision)

parse_stripped-uri_of : (m r : List ℕ) → IsAddress m r → parse_stripped (uri_of m r) ≡ ok (m, r)
unfolding parse_stripped
parse_stripped-uri_of m r a = rw (scheme_found (m ++ b'@' ∷ r)) (
    rw (scheme-is_infix (m ++ b'@' ∷ r), is_infix-append m r, a.name_dots, a.revision_dots)
      (rw (no_control_plain (uri_of m r) (uri_of_plain m r a)) (
        rw (not_empty m r) (
          rw (split_at_sign-append m r (is_name-all m a.name))
            (rw (match_parts_lem m r a.name a.revision) (rw a.parts))))))

no_to_false : (b : Bool) → not b ≡ true → b ≡ false
no_to_false true e = cc
no_to_false false e = refl

-- What a match says of the text after the scheme.
record IsMatched (parts : List ℕ × Option (List ℕ)) (m r : List ℕ) : Type 0 where
  name : is_name m ≡ true
  revision : is_revision r ≡ true
  dots_kept :
      is_infix dots (unsplit parts) ≡ false → (is_infix dots m ≡ false) × (is_infix dots r ≡ false)

abbrev returned : Result (List ℕ × List ℕ) → List ℕ × List ℕ
returned (ok found) = found
returned (raise exc) = ([], [])

ok_pair :
    (m r m' r' : List ℕ)
    → ◌≡◌ {A = Result (List ℕ × List ℕ)} (ok (m, r)) (ok (m', r'))
    → (m ≡ m') × (r ≡ r')
ok_pair m r m' r' e = (ap (λ x. (returned x).0) e, ap (λ x. (returned x).1) e)

default_revision-is_infix : is_infix dots default_revision ≡ false
unfolding is_infix starts_with
default_revision-is_infix = refl

both_found : (b r : List ℕ) → is_name b ≡ true → is_revision r ≡ true → IsMatched (b, some r) b r
unfolding unsplit
both_found b r name revision = record {
  name = name;
  revision = revision;
  dots_kept = λ h. ground (arith, is_infix-append b r, h);
}

match_parts-IsMatched :
    (parts : List ℕ × Option (List ℕ)) (m r : List ℕ)
    → match_parts parts ≡ ok (m, r)
    → IsMatched parts m r
unfolding match_parts unsplit
match_parts-IsMatched (b, none) m r e = elim (Bool-cases (is_name b)) [
  | inl name ↦
      let (same, same') = ok_pair b default_revision m r (rw name at e) in
      rw (← same, ← same')
        (record { name = name; revision = refl; dots_kept = λ h. (h, default_revision-is_infix) })
  | inr bad ↦ absurd (cc (rw bad at e))
]
match_parts-IsMatched (b, some a) m r e = elim (Bool-cases (is_name b && is_revision a)) [
  | inl good ↦
      let (same, same') = ok_pair b a m r (rw good at e) in
      rw (← same, ← same') (both_found b a (ground arith) (ground arith))
  | inr bad ↦ absurd (cc (rw bad at e))
]

passed : (b : Bool) (done : Unit {0}) → check b value_error ≡ ok done → b ≡ true
passed true done e = refl
passed false done e = absurd (cc)

parse_stripped-IsAddress : (s m r : List ℕ) → parse_stripped s ≡ ok (m, r) → IsAddress m r
unfolding parse_stripped
parse_stripped-IsAddress s m r e =
    let (d1, schemed, e1) = returns (check (starts_with s scheme) value_error) _ (m, r) e in
    let (d2, no_dots, e2) = returns (check (not (is_infix dots s)) value_error) _ (m, r) e1 in
    let (d3, no_control, e3) = returns (check (not (any is_control s)) value_error) _ (m, r) e2 in
    let (d4, full, e4) =
      returns (check (not (length (drop (length scheme) s) == 0)) value_error) _ (m, r) e3 in
    let (found, matching, e5) =
      returns (match_parts (split_at_sign (drop (length scheme) s))) _ (m, r) e4 in
    let (d6, parts, e6) = returns (check_parts found.0 found.1) _ (m, r) e5 in
    let body = drop (length scheme) s in
    let (same, same') = ok_pair found.0 found.1 m r e6 in
    let matched = match_parts-IsMatched (split_at_sign body) m r (matching ∙ e6) in
    let whole : s ≡ scheme ++ body = starts_with-append s scheme (passed _ d1 schemed) in
    let clean : is_infix dots (unsplit (split_at_sign body)) ≡ false =
      ap (is_infix dots) (unsplit-split_at_sign body)
      ∙ sym (scheme-is_infix body)
      ∙ ap (is_infix dots) (sym whole)
      ∙ no_to_false _ (passed _ d2 no_dots) in
    record {
      name = matched.name;
      revision = matched.revision;
      name_dots = (matched.dots_kept clean).0;
      revision_dots = (matched.dots_kept clean).1;
      parts = rw (← same, ← same') parts;
    }

-- What `parse_hf_uri` gives for any text, `build_hf_uri` takes back to an address, and parsing that
-- gives the same model and revision.
pub parse_hf_uri-build_hf_uri :
    (uri m r : List ℕ)
    → parse_hf_uri uri ≡ ok (m, r)
    → (build_hf_uri m r ≡ ok (uri_of m r)) × (parse_hf_uri (uri_of m r) ≡ ok (m, r))
unfolding build_hf_uri parse_hf_uri
parse_hf_uri-build_hf_uri uri m r e =
    let a = parse_stripped-IsAddress (strip uri) m r e in
    let again : parse_stripped (strip (uri_of m r)) ≡ ok (m, r) =
      ap parse_stripped (strip_plain (uri_of m r) (uri_of_plain m r a))
      ∙ parse_stripped-uri_of m r a in
    (rw again, again)
